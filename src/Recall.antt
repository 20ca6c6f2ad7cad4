-- ===== src/Recall.antt =====
-- The page table of server-go/modules/economizer/recall.go: its keys in insertion order and the turn
-- each was last surfaced on. A nil index is not modelled; `lastTurn` is a list of pairs, and
-- the hint lines that `Detect` writes are the keys that it surfaces.
pub mod Token
pub mod Residency
pub mod Tests
use aimee_module_economizer.Prelude.{
  ℕ, zero, suc, ◌+◌, ◌-◌, ◌*◌, ◌/◌, ◌%◌, ◌^◌, ◌≤◌, ◌<◌, min, ◌≡◌, refl, sym, ap, ap₂, ◌∙◌, subst,
  fun_ext, ◌≢◌, ◌↔◌, ◌⊎◌, inl, inr, Bool, true, false, not, ◌&&◌, ◌||◌, Option, none, some, List,
  [], ◌∷◌, ◌++◌, map, append-nil, append_assoc, arith, if◌then◌else◌, ◌==◌, ltb, leb, Bytes, codes,
  eq_bytes, eq_bytes_iff, length, All, any, all, Bool-cases, Option-cases, ==_iff, take, drop,
}
use aimee_module_economizer.Prelude.Int.{ℤ, pos, negsuc, ltb_ℤ, leb_ℤ, ◌-ℤ◌}
use aimee_module_economizer.Prelude.Int64.{wrap_int64}

abbrev pub default_recall_ttl_turns : ℕ
default_recall_ttl_turns = 6

pub record RecallIndex : Type 0 where
  pub keys : List Bytes
  pub last_turn : List (Bytes × ℤ)

-- Go's read of the map
unfoldable pub lookup : Bytes → List (Bytes × ℤ) → Option ℤ
lookup key [] = none
lookup key ((k, t) ∷ kts) = if eq_bytes k key then some t else lookup key kts

-- Go's write of the map
unfoldable pub put : Bytes → ℤ → List (Bytes × ℤ) → List (Bytes × ℤ)
put key turn [] = (key, turn) ∷ []
put key turn ((k, t) ∷ kts) = if eq_bytes k key then (k, turn) ∷ kts else (k, t) ∷ put key turn kts

abbrev pub or_else : ℤ → Option ℤ → ℤ
or_else d none = d
or_else d (some t) = t

abbrev pub is_tracked : Option ℤ → Bool
is_tracked none = false
is_tracked (some t) = true

-- `Len`
unfoldable pub len : RecallIndex → ℕ
len ix = length ix.keys

-- `Add`
unfoldable pub add : Bytes → RecallIndex → RecallIndex
add key ix =
    if eq_bytes key []
    then ix
    else if is_tracked (lookup key ix.last_turn)
    then ix
    else record ix { keys = ix.keys ++ key ∷ []; last_turn = put key (negsuc 0) ix.last_turn }

-- `LastTurn`
unfoldable pub last_turn_of : Bytes → RecallIndex → ℤ
last_turn_of key ix = or_else (negsuc 0) (lookup key ix.last_turn)

-- `SetLastTurn`
unfoldable pub set_last_turn : Bytes → ℤ → RecallIndex → RecallIndex
set_last_turn key turn ix =
    if is_tracked (lookup key ix.last_turn)
    then record ix { last_turn = put key turn ix.last_turn }
    else ix

-- `isCoordChar`
unfoldable pub is_coord_char : ℕ → Bool
is_coord_char c =
    (leb 65 c && leb c 90)
    || (leb 97 c && leb c 122)
    || (leb 48 c && leb c 57)
    || c == 47
    || c == 46
    || c == 95
    || c == 45
    || c == 58

-- what is left behind a prefix
unfoldable pub behind : Bytes → Bytes → Option Bytes
behind [] hay = some hay
behind (k ∷ ks) [] = none
behind (k ∷ ks) (h ∷ hs) = if k == h then behind ks hs else none

abbrev pub is_open : Bytes → Bool
is_open [] = true
is_open (h ∷ hs) = not (is_coord_char h)

-- an occurrence of the key here, not extended behind it
unfoldable pub ends_here : Option Bytes → Bool
ends_here none = false
ends_here (some rest) = is_open rest

-- the search from a position on; the flag is whether the byte before it may precede a token
unfoldable pub token_from : Bool → Bytes → Bytes → Bool
token_from free key [] = false
token_from free key (h ∷ hs) =
    (free && ends_here (behind key (h ∷ hs))) || token_from (not (is_coord_char h)) key hs

-- `containsToken`; each position is tried in order, of which `strings.Index` skips those where the
-- key does not occur
unfoldable pub contains_token : Bytes → Bytes → Bool
contains_token hay key = if eq_bytes key [] then false else token_from true key hay

abbrev pub resident : ℤ → ℤ → ℤ → Bool
resident turn last ttl = leb_ℤ (pos 0) last && ltb_ℤ (wrap_int64 (turn -ℤ last)) ttl

-- one key of the loop of `Detect`
unfoldable pub surfaces : Bytes → ℤ → ℤ → List (Bytes × ℤ) → Bytes → Bool
surfaces text turn ttl turns key =
    if not (contains_token text key)
    then false
    else if resident turn (or_else (pos 0) (lookup key turns)) ttl
    then false
    else true

-- the loop: the keys surfaced and the turns behind it
unfoldable pub detect_loop :
    Bytes → ℤ → ℤ → List Bytes → List (Bytes × ℤ) → List Bytes × List (Bytes × ℤ)
detect_loop text turn ttl [] turns = ([], turns)
detect_loop text turn ttl (key ∷ keys) turns =
    if surfaces text turn ttl turns key
    then (let (out, after) = detect_loop text turn ttl keys (put key turn turns) in
        (key ∷ out, after))
    else detect_loop text turn ttl keys turns

abbrev pub ttl_or_default : ℤ → ℤ
ttl_or_default ttl = if ltb_ℤ (pos 0) ttl then ttl else pos default_recall_ttl_turns

-- `Detect`
unfoldable pub detect : Bytes → ℤ → ℤ → RecallIndex → List Bytes × RecallIndex
detect turn_text turn ttl_turns ix =
    if eq_bytes turn_text []
    then ([], ix)
    else (let (out, turns) =
          detect_loop turn_text turn (ttl_or_default ttl_turns) ix.keys ix.last_turn in
        (out, record ix { last_turn = turns }))

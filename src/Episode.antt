-- ===== src/Episode.antt =====
-- The file inventory of server-go/modules/economizer/episode.go. A nil seal is not modelled.
pub mod Inventory
pub mod Tests
use aimee_module_economizer.Prelude.{
  ℕ, zero, suc, ◌+◌, ◌-◌, ◌*◌, ◌/◌, ◌%◌, ◌^◌, ◌≤◌, ◌<◌, min, ◌≡◌, refl, sym, ap, ap₂, ◌∙◌, subst,
  fun_ext, ◌≢◌, ◌↔◌, ◌⊎◌, inl, inr, Bool, true, false, not, ◌&&◌, ◌||◌, Option, none, some, List,
  [], ◌∷◌, ◌++◌, map, append-nil, append_assoc, arith, if◌then◌else◌, ◌==◌, ltb, leb, Bytes, codes,
  eq_bytes, eq_bytes_iff, length, All, any, all, Bool-cases, Option-cases, ==_iff, take, drop,
}

pub record EpisodeSeal : Type 0 where
  pub conclusion : Bytes
  pub files : List Bytes

-- `SetConclusion`
unfoldable pub set_conclusion : Bytes → EpisodeSeal → EpisodeSeal
set_conclusion text s = record s { conclusion = text }

abbrev pub is_file : Bytes → List Bytes → Bool
is_file path = any (λ f. eq_bytes f path)

-- `AddFile`
unfoldable pub add_file : Bytes → EpisodeSeal → EpisodeSeal
add_file path s =
    if eq_bytes path []
    then s
    else if is_file path s.files
    then s
    else record s { files = s.files ++ path ∷ [] }

-- `Touches`
unfoldable pub touches : Bytes → EpisodeSeal → Bool
touches path s = if eq_bytes path [] then false else is_file path s.files

-- ===== src/Repair/Sanitize.antt =====
-- `SanitizeAssistantToolArguments` of server-go/modules/economizer/repair.go: what it makes valid,
-- and what of a message it leaves alone.
use aimee_module_economizer.Prelude.{
  subst, Bool, true, false, ◌||◌, List, [], ◌∷◌, none, some, Option, ◌≡◌, refl, ap, ◌∙◌, sym, Bytes,
  codes, eq_bytes, any, All, map, Bool-cases, inl, inr, fun_ext,
}
use aimee_module_economizer.Json.{
  Value, Fields, array, object, delete_field, string, to_list, get, get_string, set, delete, update,
  items_of,
}
use aimee_module_economizer.Json.Laws.{get-update, get-update_ne, get-set, to_list-of_list}
use mathlib.Core.Option
use aimee_module_economizer.Repair.Collect.{string_field, detect_format}
use aimee_module_economizer.Repair.Scan.{issues, answers, field_is, role_is}
use aimee_module_economizer.Repair.Pairing.{is_plain}
use aimee_module_economizer.Repair.History.{
  map_items, parses, sanitize_function, sanitize_assistant_tool_arguments, sanitize_message,
}

pub any-map :
    (p : Value → Bool) (f : Value → Value) (xs : List Value)
    → any p (map f xs) ≡ any (λ x. p (f x)) xs
any-map p f [] = refl
any-map p f (x ∷ xs) = ap (λ b. p (f x) || b) (any-map p f xs)

pub any-map_same :
    (p : Value → Bool) (f : Value → Value) (xs : List Value)
    → ((x : Value) → p (f x) ≡ p x)
    → any p (map f xs) ≡ any p xs
any-map_same p f xs h = any-map p f xs ∙ ap (λ (q : Value → Bool). any q xs) (fun_ext h)

All-map :
    (P : Value → Type 0) (f : Value → Value) (xs : List Value)
    → ((x : Value) → P (f x))
    → All P (map f xs)
All-map P f [] h = tt
All-map P f (x ∷ xs) h = (h x, All-map P f xs h)

items-map_items :
    (f : Value → Value) (o : Option Value)
    → items_of (elim o [ none ↦ none | some v ↦ some (map_items f v) ]) ≡ map f (items_of o)
items-map_items f none = refl
items-map_items f (some (array vs)) = to_list-of_list (map f (to_list vs))
items-map_items f (some _) = refl

abbrev OtherKey : Bytes → Type 0
OtherKey key = eq_bytes (codes "tool_calls") key ≡ false

module _ (is_json : Bytes → Bool) where
  get-sanitize :
      (m : Value) (key : Bytes) → OtherKey key → get (sanitize_message is_json m) key ≡ get m key
  unfolding sanitize_message sanitize_assistant_tool_arguments
  get-sanitize m key h = elim (Bool-cases (role_is (codes "assistant") m)) [
    | inl e ↦ rw e (get-update_ne m (codes "tool_calls") key _ h)
    | inr e ↦ rw e refl
  ]

  get_string-sanitize :
      (m : Value) (key : Bytes)
      → OtherKey key
      → get_string (sanitize_message is_json m) key ≡ get_string m key
  unfolding get_string
  get_string-sanitize m key h = rw (get-sanitize m key h)

  pub role-sanitize :
      (m : Value)
      → get_string (sanitize_message is_json m) (codes "role") ≡ get_string m (codes "role")
  unfolding eq_bytes
  role-sanitize m = get_string-sanitize m (codes "role") refl

  pub type-sanitize :
      (m : Value)
      → get_string (sanitize_message is_json m) (codes "type") ≡ get_string m (codes "type")
  unfolding eq_bytes
  type-sanitize m = get_string-sanitize m (codes "type") refl

  pub content-sanitize :
      (m : Value) → get (sanitize_message is_json m) (codes "content") ≡ get m (codes "content")
  unfolding eq_bytes
  content-sanitize m = get-sanitize m (codes "content") refl

  pub string_field-sanitize :
      (m : Value) (key : Bytes)
      → OtherKey key
      → string_field (sanitize_message is_json m) key ≡ string_field m key
  unfolding string_field
  string_field-sanitize m key h = rw (get-sanitize m key h)

  pub field_is-sanitize :
      (m : Value) (key j : Bytes)
      → OtherKey key
      → field_is key j (sanitize_message is_json m) ≡ field_is key j m
  unfolding field_is
  field_is-sanitize m key j h = rw (string_field-sanitize m key h, field_is)

  abbrev sanitize_call : Value → Value
  sanitize_call tc = update tc (codes "function") (sanitize_function is_json)

  id-sanitize_call :
      (j : Bytes) (tc : Value)
      → field_is (codes "id") j (sanitize_call tc) ≡ field_is (codes "id") j tc
  unfolding field_is
  id-sanitize_call j tc = rw (same, field_is)
    where
      same : string_field (sanitize_call tc) (codes "id") ≡ string_field tc (codes "id")
      same =
          unfold string_field eq_bytes in
          rw (get-update_ne tc (codes "function") (codes "id") (sanitize_function is_json) refl)

  calls-sanitize :
      (m : Value)
      → role_is (codes "assistant") m ≡ true
      → items_of (get (sanitize_message is_json m) (codes "tool_calls"))
        ≡ map sanitize_call (items_of (get m (codes "tool_calls")))
  unfolding sanitize_message sanitize_assistant_tool_arguments eq_bytes
  calls-sanitize m e = rw e (
      ap items_of (get-update m (codes "tool_calls") (codes "tool_calls") (map_items sanitize_call))
      ∙ items-map_items sanitize_call (get m (codes "tool_calls")))

  ids-sanitize :
      (j : Bytes) (m : Value)
      → role_is (codes "assistant") m ≡ true
      → any
          (field_is (codes "id") j)
          (items_of (get (sanitize_message is_json m) (codes "tool_calls")))
        ≡ any (field_is (codes "id") j) (items_of (get m (codes "tool_calls")))
  ids-sanitize j m e =
      ap (any (field_is (codes "id") j)) (calls-sanitize m e)
      ∙ any-map_same (field_is (codes "id") j) sanitize_call (items_of (get m (codes "tool_calls")))
          (id-sanitize_call j)

  pub issues-sanitize : (j : Bytes) (m : Value) → issues j (sanitize_message is_json m) ≡ issues j m
  unfolding issues eq_bytes
  issues-sanitize j m =
      rw
        (
          role-sanitize m,
          type-sanitize m,
          content-sanitize m,
          field_is-sanitize m (codes "call_id") j refl,
        )
        (elim (Bool-cases (role_is (codes "assistant") m)) [
          | inl e ↦ rw (ids-sanitize j m e) refl
          | inr e ↦ rw e refl
        ])

  pub answers-sanitize :
      (j : Bytes) (m : Value) → answers j (sanitize_message is_json m) ≡ answers j m
  unfolding answers eq_bytes
  answers-sanitize j m =
      rw
        (
          role-sanitize m,
          type-sanitize m,
          content-sanitize m,
          field_is-sanitize m (codes "call_id") j refl,
          field_is-sanitize m (codes "tool_call_id") j refl,
        )
        refl

  pub is_plain-sanitize : (m : Value) → is_plain (sanitize_message is_json m) ≡ is_plain m
  unfolding is_plain
  is_plain-sanitize m = rw (role-sanitize m, type-sanitize m) refl

  -- The choice of the format does not see the change.
  pub detect_format-sanitize :
      (ms : List Value) → detect_format (map (sanitize_message is_json) ms) ≡ detect_format ms
  unfolding detect_format
  detect_format-sanitize [] = refl
  detect_format-sanitize (m ∷ ms) =
      rw (role-sanitize m, type-sanitize m, content-sanitize m, detect_format-sanitize ms) refl

  -- A call's `function` object has a string that parses for its arguments.
  abbrev pub HasArguments : Value → Type 0
  HasArguments tc =
      (fs : Fields)
      → get tc (codes "function") ≡ some (object fs)
      → parses is_json (get (object fs) (codes "arguments")) ≡ true

  arguments-sanitize_function :
      (empty_parses : is_json (codes "{}") ≡ true) (fs : Fields)
      → parses is_json (get (sanitize_function is_json (object fs)) (codes "arguments")) ≡ true
  unfolding sanitize_function delete eq_bytes
  arguments-sanitize_function e fs =
      elim (Bool-cases (parses is_json (get (object fs) (codes "arguments")))) [
        | inl h ↦ rw h h
        | inr h ↦ rw h (
            ap (parses is_json) (
              get-set (delete_field (codes "arguments") fs) (codes "arguments") (codes "arguments")
                (string (codes "{}")))
            ∙ e)
      ]

  sanitize_function_object :
      (empty_parses : is_json (codes "{}") ≡ true) (fn : Value) (fs : Fields)
      → sanitize_function is_json fn ≡ object fs
      → parses is_json (get (object fs) (codes "arguments")) ≡ true
  unfolding sanitize_function delete set get
  sanitize_function_object e (object fs) gs h =
      subst (λ v. parses is_json (get v (codes "arguments")) ≡ true) h
        (arguments-sanitize_function e fs)
  sanitize_function_object e _ gs h = cc

  sanitize_call-HasArguments :
      (empty_parses : is_json (codes "{}") ≡ true) (tc : Value) → HasArguments (sanitize_call tc)
  unfolding eq_bytes
  sanitize_call-HasArguments e tc fs h =
      go (get tc (codes "function"))
        (sym (get-update tc (codes "function") (codes "function") (sanitize_function is_json)) ∙ h)
    where
      go :
          (o : Option Value)
          → Option.map (sanitize_function is_json) o ≡ some (object fs)
          → parses is_json (get (object fs) (codes "arguments")) ≡ true
      go none q = cc
      go (some fn) q = sanitize_function_object e fn fs (cc)

  -- Behind `SanitizeAssistantToolArguments`, every tool call of an assistant message whose
  -- `function` is an object has a string for its arguments that parses, if "{}" parses.
  pub sanitize_message-HasArguments :
      (empty_parses : is_json (codes "{}") ≡ true) (m : Value)
      → role_is (codes "assistant") m ≡ true
      → All HasArguments (items_of (get (sanitize_message is_json m) (codes "tool_calls")))
  sanitize_message-HasArguments e m r = rw (calls-sanitize m r) (
      All-map HasArguments sanitize_call (items_of (get m (codes "tool_calls")))
        (sanitize_call-HasArguments e))

-- ===== src/Provenance.antt =====
-- The single-use capability of server-go/modules/economizer/provenance.go. SHA-256 is a parameter,
-- a function from the payload to its digest; a failed call is `false`, a released or refused
-- capability `none`.
pub mod Once
pub mod Tests
use aimee_module_economizer.Prelude.{
  ℕ, zero, suc, ◌+◌, ◌-◌, ◌*◌, ◌/◌, ◌%◌, ◌^◌, ◌≤◌, ◌<◌, min, ◌≡◌, refl, sym, ap, ap₂, ◌∙◌, subst,
  fun_ext, ◌≢◌, ◌↔◌, ◌⊎◌, inl, inr, Bool, true, false, not, ◌&&◌, ◌||◌, Option, none, some, List,
  [], ◌∷◌, ◌++◌, map, append-nil, append_assoc, arith, if◌then◌else◌, ◌==◌, ltb, leb, Bytes, codes,
  eq_bytes, eq_bytes_iff, length, All, any, all, Bool-cases, Option-cases, ==_iff, take, drop,
}

abbrev pub provenance_max_source : ℕ
provenance_max_source = 16777216

pub record ProvenanceBinding : Type 0 where
  pub tenant_id : ℕ
  pub task_id : ℕ
  pub call_id : ℕ
  pub semantic_contract_id : ℕ
  pub transform_id : ℕ
  pub transform_version : ℕ

abbrev is_set : ℕ → Bool
is_set n = not (n == 0)

-- `ProvenanceBinding.Valid`
unfoldable pub valid : ProvenanceBinding → Bool
valid b =
    is_set b.tenant_id
    && is_set b.task_id
    && is_set b.call_id
    && is_set b.semantic_contract_id
    && is_set b.transform_id
    && is_set b.transform_version

-- `==` on bindings
unfoldable pub eq_binding : ProvenanceBinding → ProvenanceBinding → Bool
eq_binding a b =
    a.tenant_id == b.tenant_id
    && a.task_id == b.task_id
    && a.call_id == b.call_id
    && a.semantic_contract_id == b.semantic_contract_id
    && a.transform_id == b.transform_id
    && a.transform_version == b.transform_version

pub record ProvenanceCapability : Type 0 where
  pub binding : ProvenanceBinding
  pub digest : Bytes
  pub source_len : ℕ
  pub consumed : Bool

abbrev pub zero_binding : ProvenanceBinding
zero_binding = record {
  tenant_id = 0;
  task_id = 0;
  call_id = 0;
  semantic_contract_id = 0;
  transform_id = 0;
  transform_version = 0;
}

-- `Destroy`; the digest has 32 bytes
unfoldable pub destroy : ProvenanceCapability → ProvenanceCapability
destroy c = record {
  binding = zero_binding;
  digest = map (λ b. 0) c.digest;
  source_len = 0;
  consumed = true;
}

module _ (sha256 : Bytes → Bytes) where
  -- `IssueProvenanceLocal`
  unfoldable pub issue : ProvenanceBinding → Bytes → Option ProvenanceCapability
  issue binding source =
      if not (valid binding) || ltb provenance_max_source (length source)
      then none
      else some (record {
        binding = binding;
        digest = sha256 source;
        source_len = length source;
        consumed = false;
      })

  -- the checks of `Consume` before the compare-and-swap, which change nothing
  unfoldable pub matches : ProvenanceCapability → ProvenanceBinding → Bytes → Bool
  matches c expected source =
      if not (valid expected) || ltb provenance_max_source (length source)
      then false
      else if not (eq_binding c.binding expected) || not (c.source_len == length source)
      then false
      else eq_bytes c.digest (sha256 source)

  -- the compare-and-swap: whether it won, and the capability behind it
  unfoldable pub swap : ProvenanceCapability → Bool × ProvenanceCapability
  swap c = if c.consumed then (false, c) else (true, record c { consumed = true })

  -- `Consume`
  unfoldable pub consume :
      ProvenanceCapability → ProvenanceBinding → Bytes → Bool × ProvenanceCapability
  consume c expected source = if matches c expected source then swap c else (false, c)

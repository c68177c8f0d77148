-- ===== src/Analysis/GraphPolicy.antt =====
-- security.rs: which kinds a policy permits.
pub mod Acceptance
pub mod Inspection
pub mod Nesting
use fancy_flow_rs.Prelude.{
  ℕ, List, [], ◌∷◌, map, String, Bool, true, false, not, Option, some, none, if◌then◌else◌, ◌==◌,
  ◌&&◌, ◌||◌, ◌≡◌, refl, ap, arith, any,
}
use fancy_flow_rs.Registry.KindId.{bare, contains}

pub record GraphPolicy : Type 0 where
  pub max_nodes : ℕ
  pub max_edges : ℕ
  pub max_depth : ℕ
  pub max_string_length : ℕ
  pub max_bytes : ℕ
  pub allowed : Option (List String)
  pub denied : List String

abbrev pub default_policy : GraphPolicy
default_policy = record {
  max_nodes = 60;
  max_edges = 120;
  max_depth = 12;
  max_string_length = 20000;
  max_bytes = 256000;
  allowed = none;
  denied = [];
}

abbrev pub untrusted : GraphPolicy
untrusted = record default_policy { allowed = some [] }

abbrev pub trusted : GraphPolicy
trusted = record {
  max_nodes = 5000;
  max_edges = 10000;
  max_depth = 32;
  max_string_length = 1000000;
  max_bytes = 8000000;
  allowed = none;
  denied = [];
}

unfoldable pub allow_kinds : GraphPolicy → List String → GraphPolicy
unfolding bare
allow_kinds policy kinds = record policy { allowed = some (map bare kinds) }

unfoldable pub deny_kinds : GraphPolicy → List String → GraphPolicy
unfolding bare
deny_kinds policy kinds = record policy { denied = map bare kinds }

unfoldable pub permits : GraphPolicy → String → Bool
unfolding bare contains
permits policy kind_id =
    if contains policy.denied (bare kind_id)
    then false
    else elim policy.allowed [ some allowed ↦ contains allowed (bare kind_id) | none ↦ true ]

-- Some id of the list has the bare name of the kind.
unfoldable pub spelled : List String → String → Bool
spelled kinds kind_id = any (λ k. bare k == bare kind_id) kinds

contains-map :
    (kinds : List String) (kind_id : String)
    → contains (map bare kinds) (bare kind_id) ≡ spelled kinds kind_id
unfolding contains spelled
contains-map [] kind_id = refl
contains-map (k ∷ kinds) kind_id =
    ap (λ b. bare k == bare kind_id || b) (contains-map kinds kind_id)

-- A policy with a list of allowed and a list of denied kinds permits a kind exactly where its bare name
-- is the bare name of an allowed kind and of no denied one, whatever the spellings and the order in
-- which the two lists were given.
pub permits-allow_kinds :
    (policy : GraphPolicy) (allow deny : List String) (kind_id : String)
    → (permits (deny_kinds (allow_kinds policy allow) deny) kind_id
        ≡ (not (spelled deny kind_id) && spelled allow kind_id))
      × (permits (allow_kinds (deny_kinds policy deny) allow) kind_id
          ≡ permits (deny_kinds (allow_kinds policy allow) deny) kind_id)
unfolding permits allow_kinds deny_kinds
permits-allow_kinds policy allow deny kind_id =
    (ground (arith, contains-map allow kind_id, contains-map deny kind_id), refl)

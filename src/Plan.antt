-- ===== src/Plan.antt =====
-- The minimal set of record hosts for the names of a certificate: `collapse`, `parentOf` and `specs`
-- of cmd/dnspersist-tool/core.go.
pub mod Sorting
pub mod Flags
pub mod Hosts
pub mod Covers
pub mod Served
use cm_saas_letsencrypt_ca_c.Base.{
  ℕ, zero, suc, ◌+◌, Bool, true, false, ◌&&◌, ◌||◌, not, Option, none, some, List, [], ◌∷◌, ◌++◌,
  map, Text, text, text_eq, lower, trim_suffix, has_prefix, contains, index_of, member, is_empty,
  if◌then◌else◌, ltb, ◌==◌, drop,
}
use cm_saas_letsencrypt_ca_c.Record.{label}

pub record HostPlan : Type 0 where
  pub host : Text
  pub exact : Bool
  pub wildcard : Bool
  pub covers : List Text

-- The wildcard flags of the records that a host needs.
unfoldable pub specs : HostPlan → List Bool
specs p = (if p.exact then false ∷ [] else []) ++ (if p.wildcard then true ∷ [] else [])

-- The parent, if it still has a dot.
abbrev pub dotted : Text → Text
dotted parent = if contains parent (text ".") then parent else []

unfoldable pub parent_of : Text → Text
parent_of fqdn = elim (index_of fqdn (text ".")) [ none ↦ [] | some i ↦ dotted (drop (suc i) fqdn) ]

-- `s < t` on strings
unfoldable pub text_ltb : Text → Text → Bool
text_ltb s [] = false
text_ltb [] (d ∷ t) = true
text_ltb (c ∷ s) (d ∷ t) = ltb c d || (c == d && text_ltb s t)

module _ {A : Type 0} (key : A → Text) where
  -- `sort.Strings`, of values by a key.
  unfoldable pub insert : A → List A → List A
  insert a [] = a ∷ []
  insert a (b ∷ bs) =
      let rest = insert a bs in if text_ltb (key b) (key a) then b ∷ rest else a ∷ b ∷ bs

  unfoldable pub sort : List A → List A
  sort [] = []
  sort (a ∷ rest) = insert a (sort rest)

abbrev pub normal : Text → Text
normal n = lower (trim_suffix n (text "."))

-- `set`: the keys of the map, each once.
unfoldable pub name_set : List Text → List Text
name_set [] = []
name_set (n ∷ ns) =
    let rest = name_set ns in if member (normal n) rest then rest else normal n ∷ rest

abbrev pub is_wild : Text → Bool
is_wild n = has_prefix n (text "*.")

-- `wbase`
unfoldable pub wild_bases : List Text → List Text
wild_bases [] = []
wild_bases (n ∷ ns) = let rest = wild_bases ns in if is_wild n then drop 2 n ∷ rest else rest

abbrev pub host_of : Text → Text
host_of base = label ++ (text "." ++ base)

abbrev pub new_plan : Text → HostPlan
new_plan base = record { host = host_of base; exact = false; wildcard = false; covers = [] }

-- A change of `get(base)`, on the map as its entries.
unfoldable pub update_plan :
    Text → (HostPlan → HostPlan) → List (Text × HostPlan) → List (Text × HostPlan)
update_plan base f [] = (base, f (new_plan base)) ∷ []
update_plan base f ((b, p) ∷ plans) =
    let rest = update_plan base f plans in
    if text_eq b base then (b, f p) ∷ plans else (b, p) ∷ rest

abbrev pub add_wildcard : Text → HostPlan → HostPlan
add_wildcard n p = record p { wildcard = true; covers = p.covers ++ n ∷ [] }

abbrev pub add_child : Text → Text → HostPlan → HostPlan
add_child n parent p = record p {
  covers = p.covers ++ (n ++ (text " (via *." ++ (parent ++ text ")"))) ∷ [];
}

abbrev pub add_exact : Text → HostPlan → HostPlan
add_exact n p = record p { exact = true; covers = p.covers ++ n ∷ [] }

-- The round of the loop for one name.
unfoldable pub plan_name : List Text → Text → List (Text × HostPlan) → List (Text × HostPlan)
plan_name wbase n plans =
    if is_wild n
    then update_plan (drop 2 n) (add_wildcard n) plans
    else if not (is_empty (parent_of n)) && member (parent_of n) wbase
    then update_plan (parent_of n) (add_child n (parent_of n)) plans
    else update_plan n (add_exact n) plans

unfoldable pub plan_names : List Text → List Text → List (Text × HostPlan) → List (Text × HostPlan)
plan_names wbase [] plans = plans
plan_names wbase (n ∷ ns) plans = plan_names wbase ns (plan_name wbase n plans)

abbrev pub base_key : Text × HostPlan → Text
base_key (base, p) = base

abbrev pub plan_of : Text × HostPlan → HostPlan
plan_of (base, p) = p

unfoldable pub collapse : List Text → List HostPlan
collapse names =
    let set = name_set names in
    map plan_of (sort base_key (plan_names (wild_bases set) (sort (λ (n : Text). n) set) []))

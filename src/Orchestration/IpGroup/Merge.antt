-- ===== src/Orchestration/IpGroup/Merge.antt =====
-- The loops of `addToIPGroup` over the hosts of a spec and over the specs of a group.
use f5_ipam_ctlr.Prelude.{
  Bool, Bool-cases, List, String, [], arith, contains, contains-append, false, if◌then◌else◌, inl,
  inr, refl, str_beq_iff, str_beq_refl, string_eq, true, ℕ, ◌&&◌, ◌++◌, ◌+◌, ◌<◌, ◌==◌, ◌||◌, ◌∙◌,
  ◌∷◌, ◌≡◌,
}
use f5_ipam_ctlr.Orchestration.IpGroup.{add_to_specs, merge_hosts, spec_hosts}
use f5_ipam_ctlr.Orchestration.Types.{Spec, equals, group_key_eq}

-- Every host of the second slice stands in the first.
unfoldable pub contains_all : List String → List String → Bool
contains_all have [] = true
contains_all have (host ∷ hosts) = contains have host && contains_all have hosts

pub merge_hosts_same :
    (have hosts : List String)
    → (merge_hosts have hosts).1 ≡ false
    → (merge_hosts have hosts).0 ≡ have
unfolding merge_hosts
merge_hosts_same have [] h = refl
merge_hosts_same have (host ∷ hosts) h = ground (arith, merge_hosts_same have hosts)

contains-snoc :
    (xs : List String) (x h : String) → contains (xs ++ x ∷ []) h ≡ contains xs h || x == h
contains-snoc xs x h = contains-append xs (x ∷ []) h ∙ (unfold contains in ground arith)

pub contains-merge_hosts :
    (have hosts : List String) (h : String)
    → contains (merge_hosts have hosts).0 h ≡ contains have h || contains hosts h
unfolding merge_hosts contains
contains-merge_hosts have [] h = ground arith
contains-merge_hosts have (host ∷ hosts) h = ground (
  arith,
  contains-merge_hosts have hosts h,
  contains-merge_hosts (have ++ host ∷ []) hosts h,
  contains-snoc have host h,
  str_beq_iff host h,
)

pub contains_all-intro :
    (have hosts : List String)
    → ((h : String) → contains hosts h ≡ true → contains have h ≡ true)
    → contains_all have hosts ≡ true
unfolding contains_all contains
contains_all-intro have [] f = refl
contains_all-intro have (host ∷ hosts) f =
    ground
      (arith, f host, str_beq_refl host, contains_all-intro have hosts (λ h e. f h (ground arith)))

pub merge_hosts_all :
    (have hosts : List String)
    → contains_all have hosts ≡ true
    → merge_hosts have hosts ≡ (have, false)
unfolding merge_hosts contains_all
merge_hosts_all have [] h = refl
merge_hosts_all have (host ∷ hosts) h = ground (arith, merge_hosts_all have hosts)

-- Merging the same hosts once more changes nothing.
pub merge_hosts_again :
    (have hosts : List String)
    → merge_hosts (merge_hosts have hosts).0 hosts ≡ ((merge_hosts have hosts).0, false)
merge_hosts_again have hosts =
    merge_hosts_all _ hosts
      (contains_all-intro _ hosts (λ h e. ground (arith, contains-merge_hosts have hosts h)))

Spec-path : (s : Spec) (hosts : List String) → hosts ≡ s.hosts → record s { hosts = hosts } ≡ s
Spec-path s hosts e = λ i. record s { hosts = e i }

-- The number of specs of a group that belong to a resource.
unfoldable pub num_matching : List Spec → Spec → ℕ
num_matching [] s = 0
num_matching (spec ∷ grp) s = (if equals spec s then 1 else 0) + num_matching grp s

pub add_to_specs_same :
    (grp : List Spec) (s : Spec)
    → (add_to_specs grp s).updated ≡ false
    → (add_to_specs grp s).specs ≡ grp
unfolding add_to_specs
add_to_specs_same [] s h = refl
add_to_specs_same (spec ∷ grp) s h = ground (
  arith,
  add_to_specs_same grp s,
  merge_hosts_same spec.hosts s.hosts,
  Spec-path spec (merge_hosts spec.hosts s.hosts).0,
)

pub add_to_specs_missing :
    (grp : List Spec) (s : Spec)
    → (add_to_specs grp s).have_spec ≡ false
    → (add_to_specs grp s).specs ≡ grp
unfolding add_to_specs
add_to_specs_missing [] s h = refl
add_to_specs_missing (spec ∷ grp) s h = ground (arith, add_to_specs_missing grp s)

pub num_matching-append :
    (xs ys : List Spec) (s : Spec)
    → num_matching (xs ++ ys) s ≡ num_matching xs s + num_matching ys s
unfolding num_matching
num_matching-append [] ys s = omega arith
num_matching-append (x ∷ xs) ys s = omega (arith, num_matching-append xs ys s)

pub num_matching_missing :
    (grp : List Spec) (s : Spec) → (add_to_specs grp s).have_spec ≡ false → num_matching grp s ≡ 0
unfolding add_to_specs num_matching
num_matching_missing [] s h = refl
num_matching_missing (spec ∷ grp) s h = ground (arith, num_matching_missing grp s)

-- `equals` reads three fields, so that equal specs match the same specs.
pub equals_cong : (a b c : Spec) → equals a b ≡ true → equals c a ≡ equals c b
unfolding equals
equals_cong a b c h =
    let p = (str_beq_iff a.kind b.kind).0 (ground arith) in
    let q = (str_beq_iff a.name b.name).0 (ground arith) in
    let r = (str_beq_iff a.namespace b.namespace).0 (ground arith) in rw (p, q, r)

pub num_matching_cong :
    (grp : List Spec) (a b : Spec) → equals a b ≡ true → num_matching grp a ≡ num_matching grp b
unfolding num_matching
num_matching_cong [] a b h = refl
num_matching_cong (spec ∷ grp) a b h = rw (equals_cong a b spec h, num_matching_cong grp a b h)

pub equals_refl : (s : Spec) → equals s s ≡ true
unfolding equals
equals_refl s = ground (arith, str_beq_refl s.kind, str_beq_refl s.name, str_beq_refl s.namespace)

pub num_matching-add_to_specs :
    (grp : List Spec) (s t : Spec) → num_matching (add_to_specs grp s).specs t ≡ num_matching grp t
unfolding add_to_specs num_matching equals
num_matching-add_to_specs [] s t = refl
num_matching-add_to_specs (spec ∷ grp) s t = ground (arith, num_matching-add_to_specs grp s t)

pub contains-add_to_specs :
    (grp : List Spec) (s : Spec) (h : String)
    → contains (spec_hosts (add_to_specs grp s).specs) h
      ≡ contains (spec_hosts grp) h || ((add_to_specs grp s).have_spec && contains s.hosts h)
unfolding add_to_specs spec_hosts contains
contains-add_to_specs [] s h = refl
contains-add_to_specs (spec ∷ grp) s h = ground (
  arith,
  contains-add_to_specs grp s h,
  contains-merge_hosts spec.hosts s.hosts h,
  contains-append (merge_hosts spec.hosts s.hosts).0 (spec_hosts (add_to_specs grp s).specs) h,
  contains-append spec.hosts (spec_hosts (add_to_specs grp s).specs) h,
  contains-append spec.hosts (spec_hosts grp) h,
)

-- The specs of the resource in the group have all of its hosts already.
abbrev pub Saturated : List Spec → Spec → Type 0
Saturated [] s = Unit
Saturated (spec ∷ grp) s =
    (equals spec s ≡ true → merge_hosts spec.hosts s.hosts ≡ (spec.hosts, false)) × Saturated grp s

pub Saturated-add_to_specs : (grp : List Spec) (s : Spec) → Saturated (add_to_specs grp s).specs s
unfolding add_to_specs
Saturated-add_to_specs [] s = tt
Saturated-add_to_specs (spec ∷ grp) s = elim (Bool-cases (equals spec s)) [
  | inl same ↦ rw same ((λ e. merge_hosts_again spec.hosts s.hosts), Saturated-add_to_specs grp s)
  | inr other ↦ rw other ((λ e. cc (other, e)), Saturated-add_to_specs grp s)
]

pub Saturated-append :
    (xs ys : List Spec) (s : Spec) → Saturated xs s → Saturated ys s → Saturated (xs ++ ys) s
Saturated-append [] ys s h k = k
Saturated-append (x ∷ xs) ys s h k = (h.0, Saturated-append xs ys s h.1 k)

pub Saturated-self : (s : Spec) → Saturated (s ∷ []) s
Saturated-self s =
    (λ e. merge_hosts_all s.hosts s.hosts (contains_all-intro s.hosts s.hosts (λ h c. c)), tt)

pub add_to_specs-Saturated :
    (grp : List Spec) (s : Spec)
    → Saturated grp s
    → ((add_to_specs grp s).specs ≡ grp) × ((add_to_specs grp s).updated ≡ false)
unfolding add_to_specs
add_to_specs-Saturated [] s h = (refl, refl)
add_to_specs-Saturated (spec ∷ grp) s h =
    let (specs, updated) = add_to_specs-Saturated grp s h.1 in
    elim (Bool-cases (equals spec s)) [
      | inl same ↦ (rw (same, h.0 same, specs), rw (same, h.0 same, updated))
      | inr other ↦ (rw (other, specs), rw (other, updated))
    ]

pub add_to_specs_have :
    (grp : List Spec) (s : Spec) → 0 < num_matching grp s → (add_to_specs grp s).have_spec ≡ true
add_to_specs_have grp s h = ground (arith, num_matching_missing grp s)

pub num_matching_have :
    (grp : List Spec) (s : Spec) → (add_to_specs grp s).have_spec ≡ true → 0 < num_matching grp s
unfolding add_to_specs num_matching
num_matching_have [] s h = cc
num_matching_have (spec ∷ grp) s h = ground (arith, num_matching_have grp s)

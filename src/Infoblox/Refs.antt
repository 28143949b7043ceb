-- ===== src/Infoblox/Refs.antt =====
-- `ipFromRef` and `GetNextAddr` of pkg/manager/infoblox.go: the address in the reference of a fixed
-- address. A separator is a text of one character, and a text is walked by its characters.
use f5_ipam_ctlr.Prelude.{
  Bool, Bool-cases, List, String, [], append, arith, chr, false, if◌then◌else◌, inl, inr, none,
  refl, some, str_beq, string_eq, true, ◌&&◌, ◌==◌, ◌∷◌, ◌≡◌,
}
use f5_ipam_ctlr.Infoblox.{IBloxClient, Server, allocate_ip, sends}

-- `strings.Split` at a separator of one character: the first part and the others.
unfoldable pub split : String → String → String × List String
split String.[] sep = ("", [])
split (String.◌∷◌ c s) sep =
    let (part, parts) = split s sep in
    if chr c == sep then ("", part ∷ parts) else (String.◌∷◌ c part, parts)

-- The last element of `split`.
unfoldable pub last : String → List String → String
last part [] = part
last part (next ∷ parts) = last next parts

-- `ipFromRef`
unfoldable pub ip_from_ref : String → String
unfolding split last
ip_from_ref ref = let (part, parts) = split ref ":" in (split (last part parts) "/").0

-- `GetNextAddr`; its result after an error is "".
unfoldable pub get_next_addr : Server → IBloxClient → String → String → IBloxClient × String
unfolding ip_from_ref
get_next_addr s cl netview cidr =
    let asked = sends cl (allocate_ip netview cidr) in
    elim (s.on_allocate_ip cl.requests netview cidr) [
      | none ↦ (asked, "")
      | some next_addr ↦ (asked, ip_from_ref next_addr)
    ]

-- The text has no character that is the separator.
unfoldable pub lacks : String → String → Bool
lacks String.[] sep = true
lacks (String.◌∷◌ c s) sep = let rest = lacks s sep in if chr c == sep then false else rest

split-lacks : (s sep : String) → lacks s sep ≡ true → split s sep ≡ (s, [])
unfolding split lacks
split-lacks String.[] sep h = refl
split-lacks (String.◌∷◌ c s) sep h = ground (arith, split-lacks s sep)

lacks-append : (s t sep : String) → lacks (append s t) sep ≡ lacks s sep && lacks t sep
unfolding lacks append
lacks-append String.[] t sep = refl
lacks-append (String.◌∷◌ c s) t sep = ground (arith, lacks-append s t sep)

-- Behind a separator stands the last part, whatever stands before it.
last-split :
    (front t x : String)
    → lacks t ":" ≡ true
    → last x (split (append front (append ":" t)) ":").1 ≡ t
unfolding split last append str_beq
last-split String.[] t x h = rw (split-lacks t ":" h) refl
last-split (String.◌∷◌ c front) t x h =
    let s = append front (append ":" t) in
    elim (Bool-cases (chr c == ":")) [
      | inl same ↦ rw same (last-split front t (split s ":").0 h)
      | inr other ↦ rw other (last-split front t x h)
    ]

first-split : (s t : String) → lacks s "/" ≡ true → (split (append s (append "/" t)) "/").0 ≡ s
unfolding split append lacks
first-split String.[] t h = unfold str_beq in refl
first-split (String.◌∷◌ c s) t h = ground (arith, first-split s t)

-- From a reference that ends in `:`, an address, `/` and a network view, where neither has a colon
-- and the address has no slash, ipFromRef gets the address.
pub ip_from_ref_lem :
    (front ip netview : String)
    → lacks ip ":" ≡ true
    → lacks netview ":" ≡ true
    → lacks ip "/" ≡ true
    → ip_from_ref (append front (append ":" (append ip (append "/" netview)))) ≡ ip
unfolding ip_from_ref append
ip_from_ref_lem front ip netview no_colon no_colon' no_slash =
    let t = append ip (append "/" netview) in
    let no_colon_t : lacks t ":" ≡ true =
      unfold lacks str_beq in
      ground (arith, lacks-append ip (append "/" netview) ":", lacks-append "/" netview ":") in
    rw (ip_from_ref, last-split front t (split (append front (append ":" t)) ":").0 no_colon_t)
      (first-split ip netview no_slash)

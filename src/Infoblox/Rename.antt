-- ===== src/Infoblox/Rename.antt =====
-- `CNAMEToA` of pkg/manager/infoblox.go: when it fails, and what it answers.
use f5_ipam_ctlr.Prelude.{
  Bool, List, Option-cases, String, [], arith, false, if◌then◌else◌, inl, inr, refl, str_beq_iff,
  string_eq, true, ◌&&◌, ◌==◌, ◌||◌, ◌∷◌, ◌≡◌,
}
use f5_ipam_ctlr.Infoblox.{
  CnameRecord, IBloxClient, Server, a_object, cname_object, cname_to_a, delete_cname_loop,
  delete_cname_record, forget, get_cname, get_cname_record, get_networks, sends, update, update_a,
  update_cname, update_cnames,
}
use f5_ipam_ctlr.Prelude.GoMap.{GoMap, has, insert, lookup, lookup-delete, lookup-insert}

has-insert_known :
    (k h v : String) (m : GoMap String String) → has k m ≡ true → has h (insert k v m) ≡ has h m
has-insert_known k h v m old = ground (arith, lookup-insert k h v m, str_beq_iff k h)

-- Every host has a reference, `first` in any case.
unfoldable pub all_known : GoMap String String → String → List String → Bool
all_known refs first [] = true
all_known refs first (host ∷ hosts) = (first == host || has host refs) && all_known refs first hosts

all_found : GoMap String String → List String → Bool
all_found refs [] = true
all_found refs (host ∷ hosts) = has host refs && all_found refs hosts

all_found-insert :
    (k v : String) (m : GoMap String String) (hosts : List String)
    → has k m ≡ true
    → all_found (insert k v m) hosts ≡ all_found m hosts
unfolding all_found
all_found-insert k v m [] old = refl
all_found-insert k v m (host ∷ hosts) old =
    ground (arith, has-insert_known k host v m old, all_found-insert k v m hosts old)

all_found-first :
    (first v : String) (refs gone : GoMap String String) (hosts : List String)
    → ((h : String) → first == h ≡ false → lookup h gone ≡ lookup h refs)
    → all_found (insert first v gone) hosts ≡ all_known refs first hosts
unfolding all_found all_known
all_found-first first v refs gone [] same = refl
all_found-first first v refs gone (host ∷ hosts) same = ground (
  arith,
  lookup-insert first host v gone,
  same host,
  all_found-first first v refs gone hosts same,
)

abbrev pub answer : Bool → String → String × Bool
answer ok host = if ok then (host, false) else ("", true)

module _ (s : Server) where
  update_cnames_result :
      (cl : IBloxClient) (a_record netview : String) (hosts : List String)
      → (update_cnames s cl a_record netview hosts).1
        ≡ answer (all_found cl.record_ref hosts) a_record
  unfolding update_cnames all_found
  update_cnames_result cl a_record netview [] = refl
  update_cnames_result cl a_record netview (host ∷ hosts) =
      elim (Option-cases (lookup host cl.record_ref)) [
        | inl miss ↦ rw (update_cnames, miss) refl
        | inr (old_ref, found) ↦
            let r = update_cname (cname_object host a_record netview) old_ref in
            let rest = update_cnames_result (update s cl host r) a_record netview hosts in
            let same =
              all_found-insert host (s.on_write cl.requests r) cl.record_ref hosts
                (rw found refl) in
            rw (update_cnames, found, rest, same) refl
      ]

  lookup-delete_cname_loop :
      (cl : IBloxClient) (name ip netview cidr : String) (res : List CnameRecord) (h : String)
      → name == h ≡ false
      → lookup h (delete_cname_loop s cl name ip netview cidr res).record_ref
        ≡ lookup h cl.record_ref
  unfolding delete_cname_loop
  lookup-delete_cname_loop cl name ip netview cidr [] h other = refl
  lookup-delete_cname_loop cl name ip netview cidr (rec ∷ res) h other =
      let asked = sends cl (get_networks netview) in
      ground (
        arith,
        lookup-delete_cname_loop asked name ip netview cidr res h other,
        lookup-delete_cname_loop (forget asked rec.ref name) name ip netview cidr res h other,
        lookup-delete name h cl.record_ref,
      )

  lookup-delete_cname_record :
      (cl : IBloxClient) (name ip netview cidr h : String)
      → name == h ≡ false
      → lookup h (delete_cname_record s cl name ip netview cidr).record_ref ≡ lookup h cl.record_ref
  unfolding delete_cname_record
  lookup-delete_cname_record cl name ip netview cidr h other =
      let obj = cname_object name "" netview in
      elim (Option-cases (get_cname_record s cl obj)) [
        | inl fails ↦ rw (delete_cname_record, fails) refl
        | inr (res, answers) ↦
            rw (delete_cname_record, answers)
              (lookup-delete_cname_loop (sends cl (get_cname obj)) name ip netview cidr res h other)
      ]

  -- CNAMEToA succeeds exactly if the host that goes has a reference, and every available host but
  -- the first has one or is the first again; its answer is then the first available host, and ""
  -- with an error otherwise.
  pub cname_to_a_result :
      (cl : IBloxClient) (host : String) (hosts : List String) (del_host ip netview cidr : String)
      → (cname_to_a s cl (host ∷ hosts) del_host ip netview cidr).1
        ≡ answer (has del_host cl.record_ref && all_known cl.record_ref host hosts) host
  unfolding cname_to_a
  cname_to_a_result cl host hosts del_host ip netview cidr =
      elim (Option-cases (lookup del_host cl.record_ref)) [
        | inl miss ↦ rw (cname_to_a, miss) refl
        | inr (old_ref, found) ↦
            let gone = delete_cname_record s cl host ip netview cidr in
            let r = update_a (a_object host ip "") old_ref in
            let rest = update_cnames_result (update s gone host r) host netview hosts in
            let same =
              all_found-first host (s.on_write gone.requests r) cl.record_ref gone.record_ref hosts
                (lookup-delete_cname_record cl host ip netview cidr) in
            rw (cname_to_a, found, rest, same) refl
      ]

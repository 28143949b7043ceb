-- ===== src/Infoblox/Delete.antt =====
-- What `CreateARecord` and `DeleteARecord` of pkg/manager/infoblox.go ask of the server.
use f5_ipam_ctlr.Prelude.{
  Bool, List, Option, Option-cases, String, [], arith, false, head?, if◌then◌else◌, inl, inr,
  is_empty, none, refl, some, string_eq, true, ℕ, ◌&&◌, ◌+◌, ◌==◌, ◌∷◌, ◌≡◌,
}
use f5_ipam_ctlr.Infoblox.{
  ARecord, IBloxClient, Request, Server, a_object, create_a, create_a_record, delete_a_loop,
  delete_a_record, delete_object, find_cidr, forget, get_a, get_a_record, get_cname,
  get_network_cidr, get_networks, get_zones, release_ip, sends,
}
use f5_ipam_ctlr.Prelude.GoMap.{lookup, lookup-insert}

-- How often an object was deleted.
unfoldable pub num_deleted : String → List Request → ℕ
num_deleted ref [] = 0
num_deleted ref (delete_object r ∷ requests) =
    (if r == ref then 1 else 0) + num_deleted ref requests
num_deleted ref (_ ∷ requests) = num_deleted ref requests

-- The A records with the reference that the network of the CIDR holds.
unfoldable pub num_in_network : Server → List String → String → String → List ARecord → ℕ
unfolding find_cidr
num_in_network s networks cidr ref [] = 0
num_in_network s networks cidr ref (rec ∷ res) =
    (if find_cidr s networks rec.ipv4_addr == cidr && rec.ref == ref then 1 else 0)
    + num_in_network s networks cidr ref res

module _ (s : Server) (netview : String) (networks : List String)
    (steady : (log : List Request) → s.on_get_networks log netview ≡ networks) where
  num_deleted-delete_a_loop :
      (cl : IBloxClient) (name cidr : String) (res : List ARecord) (ref : String)
      → num_deleted ref (delete_a_loop s cl name netview cidr res).requests
        ≡ num_in_network s networks cidr ref res + num_deleted ref cl.requests
  unfolding delete_a_loop num_in_network num_deleted get_network_cidr
  num_deleted-delete_a_loop cl name cidr [] ref = omega arith
  num_deleted-delete_a_loop cl name cidr (rec ∷ res) ref =
      let asked = sends cl (get_networks netview) in
      ground (
        arith,
        steady cl.requests,
        num_deleted-delete_a_loop asked name cidr res ref,
        num_deleted-delete_a_loop (forget asked rec.ref name) name cidr res ref,
      )

  -- If the query for the A record is answered, and the networks of the view do not change while
  -- DeleteARecord runs, then it deletes each object as often as the answer has a matching record
  -- with its reference in the network of the CIDR; its last request releases the address.
  pub num_deleted-delete_a_record :
      (cl : IBloxClient) (name ip cidr ref : String) (res : List ARecord)
      → get_a_record s cl (a_object name ip netview) ≡ some res
      → let cl' = delete_a_record s cl name ip netview cidr in
        (num_deleted ref cl'.requests
          ≡ num_in_network s networks cidr ref res + num_deleted ref cl.requests)
        × (head? cl'.requests ≡ some (release_ip netview cidr ip))
  unfolding delete_a_record num_deleted num_in_network
  num_deleted-delete_a_record cl name ip cidr ref [] answers =
      (rw (delete_a_record, answers) (omega arith), rw (delete_a_record, answers) refl)
  num_deleted-delete_a_record cl name ip cidr ref (rec ∷ res) answers = (
    rw (delete_a_record, answers)
        (num_deleted-delete_a_loop (sends cl (get_a (a_object name ip netview))) name cidr
          (rec ∷ res) ref),
    rw (delete_a_record, answers) refl,
  )

unfoldable pub is_query : Request → Bool
is_query (get_a _) = true
is_query (get_cname _) = true
is_query (get_networks _) = true
is_query get_zones = true
is_query _ = false

unfoldable pub num_writes : List Request → ℕ
unfolding is_query
num_writes [] = 0
num_writes (r ∷ requests) = (if is_query r then 0 else 1) + num_writes requests

-- The query was answered, and no record matched.
unfoldable pub is_absent : Option (List ARecord) → Bool
is_absent none = false
is_absent (some res) = is_empty res

-- CreateARecord returns true exactly if its query is answered with no matching record. Then it
-- makes one write, and the host has the reference that the server returned; otherwise it makes no
-- write, and no reference changes.
pub create_a_record_lem :
    (s : Server) (cl : IBloxClient) (name ip netview : String)
    → let obj = a_object name ip netview in
      let result = create_a_record s cl name ip netview in
      let ok = is_absent (get_a_record s cl obj) in
      (result.1 ≡ ok)
      × ((num_writes result.0.requests ≡ (if ok then 1 else 0) + num_writes cl.requests)
          × ((host : String)
              → lookup host result.0.record_ref ≡ (
                  if ok && name == host
                  then some (s.on_write (get_a obj ∷ cl.requests) (create_a obj))
                  else lookup host cl.record_ref)))
unfolding create_a_record num_writes is_absent
create_a_record_lem s cl name ip netview =
    let obj = a_object name ip netview in
    elim (Option-cases (get_a_record s cl obj)) [
      | inl fails ↦ rw (create_a_record, fails) (refl, (omega arith, λ host. refl))
      | inr ([], answers) ↦
          rw (create_a_record, answers)
            (
              refl,
              (
                omega arith,
                λ host.
                    lookup-insert name host (s.on_write (get_a obj ∷ cl.requests) (create_a obj))
                      cl.record_ref,
              ),
            )
      | inr (rec ∷ res, answers) ↦ rw (create_a_record, answers) (refl, (omega arith, λ host. refl))
    ]

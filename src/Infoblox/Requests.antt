-- ===== src/Infoblox/Requests.antt =====
-- The set-up of the client and the building of its requests in pkg/manager/infoblox.go. What
-- infoblox-go-client and net/http do is an argument.
use f5_ipam_ctlr.Prelude.{
  Bool, Bool-cases, List, Option, String, [], append, arith, false, if◌then◌else◌, inl, inr,
  is_empty, none, not, refl, some, str_beq, str_beq_iff, string_eq, true, ℤ, ◌&&◌, ◌==◌, ◌||◌, ◌∷◌,
  ◌≡◌,
}
use f5_ipam_ctlr.Prelude.GoMap.{GoMap, insert, lookup}

abbrev pub ea_key : String
ea_key = "F5-IPAM"

abbrev pub ea_val : String
ea_val = "managed"

-- `ibclient.RequestType`
pub data RequestType : Type 0 where
  create : RequestType
  get : RequestType
  delete_one : RequestType
  update_one : RequestType

-- `toString`
abbrev pub to_string : RequestType → String
to_string create = "POST"
to_string get = "GET"
to_string delete_one = "DELETE"
to_string update_one = "PUT"

abbrev pub is_get : RequestType → Bool
is_get create = false
is_get get = true
is_get delete_one = false
is_get update_one = false

-- `ibclient.HostConfig`
pub record HostConfig : Type 0 where
  pub host : String
  pub version : String
  pub port : String
  pub username : String
  pub password : String

-- The fields of `url.URL` that are set.
pub record Url : Type 0 where
  pub scheme : String
  pub host : String
  pub path : String
  pub raw_query : String

-- `strings.Join`
unfoldable pub join : String → List String → String
unfolding append
join sep [] = ""
join sep (x ∷ []) = x
join sep (x ∷ y ∷ xs) = append x (append sep (join sep (y ∷ xs)))

-- The values of the query of `BuildUrl`; there are none if it is not a GET.
unfoldable pub query_values : RequestType → String → List String → GoMap String String
unfolding join append
query_values r obj_type return_fields =
    if is_get r
    then (let vals =
          if obj_type == "record:a" || obj_type == "record:cname"
          then insert (append "*" (append ea_key "~")) ea_val []
          else [] in
        if is_empty return_fields
        then vals
        else insert "_return_fields" (join "," return_fields) vals)
    else []

-- `BuildUrl`, before the text of the URL is made; `encode` is `Values.Encode`.
unfoldable pub build_url :
    (GoMap String String → String) → HostConfig → RequestType → String → String → List String → Url
unfolding query_values
build_url encode cfg r obj_type ref return_fields = record {
  scheme = "https";
  host = append cfg.host (append ":" cfg.port);
  path = join "/" ("wapi" ∷ append "v" cfg.version ∷ (if ref == "" then obj_type else ref) ∷ []);
  raw_query = if is_get r then encode (query_values r obj_type return_fields) else "";
}

-- What `BuildRequest` reads of an `ibclient.IBObject`.
pub record IbObject : Type 0 where
  pub object_type : String
  pub return_fields : List String

-- `http.Request`, with the header and the credentials that are set.
pub record HttpRequest : Type 0 where
  pub method : String
  pub url : String
  pub body : String
  pub content_type : String
  pub username : String
  pub password : String

abbrev pub object_type_of : Option IbObject → String
object_type_of none = ""
object_type_of (some obj) = obj.object_type

abbrev pub return_fields_of : Option IbObject → List String
return_fields_of none = []
return_fields_of (some obj) = obj.return_fields

-- The calls of `BuildRequest`: `Values.Encode`, `URL.String`, `BuildBody`, and whether
-- `http.NewRequest` takes a method and a URL.
pub record HttpLibrary : Type 0 where
  pub encode : GoMap String String → String
  pub url_string : Url → String
  pub build_body : RequestType → IbObject → String
  pub accepts : String → String → Bool

abbrev pub body_of : HttpLibrary → RequestType → Option IbObject → String
body_of lib r none = ""
body_of lib r (some obj) = lib.build_body r obj

-- `BuildRequest`; `none` is an error.
unfoldable pub build_request :
    HttpLibrary → HostConfig → RequestType → Option IbObject → String → Option HttpRequest
unfolding build_url
build_request lib cfg r obj ref =
    let u =
      lib.url_string (build_url lib.encode cfg r (object_type_of obj) ref (return_fields_of obj)) in
    if lib.accepts (to_string r) u
    then some (record {
      method = to_string r;
      url = u;
      body = body_of lib r obj;
      content_type = "application/json";
      username = cfg.username;
      password = cfg.password;
    })
    else none

-- The type is one of those that `BuildUrl` filters.
abbrev pub is_record : String → Bool
is_record obj_type = obj_type == "record:a" || obj_type == "record:cname"

other_key : (field : String) → field == "*F5-IPAM~" ≡ true → field == "_return_fields" ≡ false
unfolding str_beq
other_key field h = let e = (str_beq_iff field "*F5-IPAM~").0 h in rw e refl

query_values-lookup :
    (r : RequestType) (obj_type : String) (return_fields : List String) (field : String)
    → lookup field (query_values r obj_type return_fields) ≡ (
        if field == "*F5-IPAM~"
        then (if is_get r && is_record obj_type then some "managed" else none)
        else (if field == "_return_fields" && (is_get r && not (is_empty return_fields))
            then some (join "," return_fields)
            else none))
unfolding query_values lookup insert append str_beq
query_values-lookup r obj_type return_fields field =
    let c = other_key field in
    let a = str_beq_iff "*F5-IPAM~" field in
    let a' = str_beq_iff field "*F5-IPAM~" in
    let b = str_beq_iff "_return_fields" field in
    let b' = str_beq_iff field "_return_fields" in
    elim (Bool-cases (is_get r)) [
      | inr other ↦ rw (query_values, other) (ground arith)
      | inl asks ↦ elim (Bool-cases (is_record obj_type)) [
        | inl named_record ↦ elim (Bool-cases (is_empty return_fields)) [
          | inl bare ↦ rw (query_values, asks, named_record, bare) (ground (arith, a, a', b, b', c))
          | inr fields ↦
              rw (query_values, asks, named_record, fields) (ground (arith, a, a', b, b', c))
        ]
        | inr no_record ↦ elim (Bool-cases (is_empty return_fields)) [
          | inl bare ↦ rw (query_values, asks, no_record, bare) (ground (arith, a, a', b, b', c))
          | inr fields ↦
              rw (query_values, asks, no_record, fields) (ground (arith, a, a', b, b', c))
        ]
      ]
    ]

-- What BuildUrl asks for. The query of a GET has the filter for the attribute of the controller if
-- it asks for A or CNAME records, has the fields that the object names if it names any, and has
-- nothing else, so that a GET of other objects is not filtered; any other request has no query.
pub build_url_filters :
    (encode : GoMap String String → String) (cfg : HostConfig) (r : RequestType)
    (obj_type ref : String) (return_fields : List String) (field : String)
    → let vals = query_values r obj_type return_fields in
      ((build_url encode cfg r obj_type ref return_fields).raw_query
        ≡ (if is_get r then encode vals else ""))
      × (lookup field vals ≡ (
          if field == "*F5-IPAM~"
          then (if is_get r && is_record obj_type then some "managed" else none)
          else (if field == "_return_fields" && (is_get r && not (is_empty return_fields))
              then some (join "," return_fields)
              else none)))
unfolding build_url query_values lookup insert append str_beq
build_url_filters encode cfg r obj_type ref return_fields field =
    (refl, query_values-lookup r obj_type return_fields field)

-- The server as `NewInfobloxClient` meets it: whether a connector can be made, whether it has the
-- definition of the attribute, and whether it lets it be made.
pub record Grid : Type 0 where
  pub connects : HostConfig → Bool
  pub has_definition : String → Bool
  pub creates_definition : String → Bool

-- `InfobloxParams`; `itoa` is `strconv.Itoa`.
pub record InfobloxParams : Type 0 where
  pub host : String
  pub version : String
  pub port : ℤ
  pub username : String
  pub password : String

abbrev pub host_config : (ℤ → String) → InfobloxParams → HostConfig
host_config itoa params = record {
  host = params.host;
  version = params.version;
  port = itoa params.port;
  username = params.username;
  password = params.password;
}

-- `NewInfobloxClient`; false is an error.
unfoldable pub new_infoblox_client : (ℤ → String) → Grid → InfobloxParams → Bool
new_infoblox_client itoa grid params =
    if grid.connects (host_config itoa params)
    then (if not (grid.has_definition ea_key) then grid.creates_definition ea_key else true)
    else false

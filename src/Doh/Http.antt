-- ===== src/Doh/Http.antt =====
-- doh.go: `ServeHTTP`, `handleWireFormat` and `handleJSON`. The handler's `query` over "https" and
-- the libraries' functions are parameters. `none` is a panic of the query.
pub mod Serving
pub mod Refusing
use sdns.Base.{
  ℕ, Bool, true, false, not, ◌&&◌, ◌||◌, ◌==◌, List, [], ◌∷◌, ◌++◌, Bytes, codes, bytes_eq, Option,
  none, some, if◌then◌else◌, ◌>>=◌, is_some,
}
use sdns.Dns.{Question, Rr, Rdata, Msg, empty_msg, type_opt, class_inet}
use sdns.Dnssec.Signatures.{has_suffix}
use sdns.Doh.Qtype.{parse_qtype, type_none}
use sdns.Doh.Reply.{View, new_msg}
use sdns.Handler.Env.{State}
use sdns.Records.{is_empty}

-- `http.Request`: the parameters of its URL, its headers, and its body, `none` when reading fails
pub data Method : Type 0 where
  get post other : Method

pub record Request : Type 0 where
  pub method : Method
  pub dns : Bytes
  pub name : Bytes
  pub type_name : Bytes
  pub cd : Bytes
  pub do_flag : Bytes
  pub subnet : Bytes
  pub accepts_html : Bool
  pub content_type : Bytes
  pub body : Option Bytes

-- What is written: an error with its status, or a body with its content type.
pub data Written : Type 0 where
  failed : ℕ → Written
  sent : Bytes → Bytes → Written

-- `RawURLEncoding.DecodeString`, `Unpack`, `Pack`, `json.Marshal`, the text of a record, the OPT
-- record with a DO flag, and the option of a client subnet in CIDR notation
pub record WebLib : Type 0 where
  pub decode_url : Bytes → Option Bytes
  pub unpack : Bytes → Option Msg
  pub pack : Msg → Option Bytes
  pub marshal : Option View → Option Bytes
  pub text_of : Rr → Bytes
  pub set_do : Rr → Rr
  pub set_subnet : Bytes → Rr → Option Rr

-- what is written for a packed reply
unfoldable pub write : Bytes → Option Bytes → Written
write content none = failed 500
write content (some packed) = sent content packed

-- `name` closed with a dot
unfoldable pub closed_name : Bytes → Bytes
unfolding has_suffix
closed_name name = if not (has_suffix name (codes ".")) then name ++ codes "." else name

-- the message of a JSON request
unfoldable pub json_request : Request → ℕ → Rr → Msg
json_request r qtype opt = record empty_msg {
  recursion_desired = true;
  checking_disabled = bytes_eq r.cd (codes "true");
  question = record { name = closed_name r.name; qtype = qtype; qclass = class_inet } ∷ [];
  extra = opt ∷ [];
}

-- the OPT record of a JSON request, `none` for a subnet that does not parse
unfoldable pub request_opt : WebLib → Request → Option Rr
request_opt lib r =
    let plain : Rr = record {
      name = codes ".";
      rrtype = type_opt;
      rrclass = 4096;
      ttl = 0;
      rdata = Rdata.opt [];
    } in
    let opt = if bytes_eq r.do_flag (codes "true") then lib.set_do plain else plain in
    if not (is_empty r.subnet) then lib.set_subnet r.subnet opt else some opt

module _ {R : Type 0} (lib : WebLib) (query : State R → Msg → Option (State R × Msg)) where
  abbrev pub Served : Type 0
  Served = Option (State R × Written)

  -- `http.Error`
  abbrev pub refuse : State R → ℕ → Served
  refuse s code = some (s, failed code)

  -- from `Unpack` to the end of `handleWireFormat`
  unfoldable pub answer_wire : State R → Bytes → Served
  unfolding write
  answer_wire s buf = elim (lib.unpack buf) [
    | none ↦ refuse s 400
    | some req ↦
        query s req >>= λ (t, msg). some (t, write (codes "application/dns-message") (lib.pack msg))
  ]

  -- the decoded parameter of a GET
  unfoldable pub serve_decoded : State R → Option Bytes → Served
  serve_decoded s none = refuse s 400
  serve_decoded s (some buf) = if is_empty buf then refuse s 400 else answer_wire s buf

  -- the body of a POST
  unfoldable pub serve_body : State R → Option Bytes → Served
  serve_body s none = refuse s 500
  serve_body s (some buf) = answer_wire s buf

  -- `handleWireFormat`
  unfoldable pub handle_wire_format : State R → Request → Served
  handle_wire_format s r = elim r.method [
    | get ↦ serve_decoded s (lib.decode_url r.dns)
    | post ↦
        if not (bytes_eq r.content_type (codes "application/dns-message"))
        then refuse s 415
        else serve_body s r.body
    | other ↦ refuse s 405
  ]

  -- `handleJSON`
  unfoldable pub handle_json : State R → Request → Served
  unfolding write
  handle_json s r =
      let qtype = parse_qtype r.type_name in
      if is_empty r.name || qtype == type_none then refuse s 400 else elim (request_opt lib r) [
        | none ↦ refuse s 400
        | some opt ↦
            let content =
              if r.accepts_html
              then codes "application/x-javascript"
              else codes "application/dns-json" in
            query s (json_request r qtype opt) >>= λ (t, msg).
            some (t, write content (lib.marshal (new_msg lib.text_of (some msg))))
      ]

  -- `ServeHTTP`, given whether the access list contains the client
  unfoldable pub serve_http : Bool → State R → Request → Served
  serve_http allowed s r = if not allowed then refuse s 401 else elim r.method [
    | get ↦ if is_empty r.dns then handle_json s r else handle_wire_format s r
    | post ↦ handle_wire_format s r
    | other ↦ handle_wire_format s r
  ]

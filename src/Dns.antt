-- ===== src/Dns.antt =====
-- The messages of the DNS library (vendor/github.com/miekg/dns) as the program reads and writes
-- them: the header fields, questions and resource records that its code names. The library's own
-- functions are parameters of the definitions that call them.
use sdns.Base.{ℕ, Bool, true, false, ◌≡◌, refl, List, [], Bytes, Option, none, some, codes}

-- `dns.Question`
pub record Question : Type 0 where
  pub name : Bytes
  pub qtype : ℕ  -- uint16
  pub qclass : ℕ  -- uint16

-- What stands behind a record's header, for the types that the program tells apart. Addresses,
-- keys and digests are the texts by which the program compares them.
pub data Rdata : Type 0 where
  a aaaa : Bytes → Rdata  -- address
  ns : Bytes → Rdata  -- host
  cname : Bytes → Rdata  -- target
  hinfo : Bytes → Bytes → Rdata  -- cpu, os
  ds : ℕ → ℕ → Bytes → Rdata  -- key tag, digest type, digest
  dnskey : ℕ → ℕ → Bytes → Rdata  -- flags, algorithm, public key
  rrsig : ℕ → ℕ → Bytes → Bytes → Rdata  -- type covered, key tag, signer, signature
  nsec : List ℕ → Rdata  -- type bit map
  nsec3 : ℕ → List ℕ → Bytes → Rdata  -- flags, type bit map, hash parameters and hashes
  opt : List ℕ → Rdata  -- the codes of the EDNS0 options
  other : Bytes → Rdata
  nil_ds : Rdata  -- in place of a record, a nil pointer to a DS record

-- the concrete types behind `dns.RR`, each with the owner name of its header
pub record Ds : Type 0 where
  pub owner : Bytes
  pub key_tag : ℕ
  pub digest_type : ℕ
  pub digest : Bytes

pub record Dnskey : Type 0 where
  pub owner : Bytes
  pub flags : ℕ
  pub algorithm : ℕ
  pub public_key : Bytes

pub record Rrsig : Type 0 where
  pub owner : Bytes
  pub type_covered : ℕ
  pub key_tag : ℕ
  pub signer_name : Bytes
  pub signature : Bytes

pub record Nsec3 : Type 0 where
  pub owner : Bytes
  pub flags : ℕ
  pub type_bit_map : List ℕ
  pub hashes : Bytes

-- `dns.RR` with its header
pub record Rr : Type 0 where
  pub name : Bytes
  pub rrtype : ℕ  -- uint16
  pub rrclass : ℕ  -- uint16
  pub ttl : ℕ  -- uint32
  pub rdata : Rdata

-- the type assertions `rr.(*dns.DS)`, `rr.(*dns.DNSKEY)`, `rr.(*dns.RRSIG)`
abbrev pub as_ds : Rr → Option Ds
as_ds r = elim r.rdata [
  | Rdata.ds tag kind digest ↦
      some (record { owner = r.name; key_tag = tag; digest_type = kind; digest = digest })
  | _ ↦ none
]

abbrev pub as_dnskey : Rr → Option Dnskey
as_dnskey r = elim r.rdata [
  | Rdata.dnskey flags algorithm key ↦
      some (record { owner = r.name; flags = flags; algorithm = algorithm; public_key = key })
  | _ ↦ none
]

abbrev pub as_rrsig : Rr → Option Rrsig
as_rrsig r = elim r.rdata [
  | Rdata.rrsig covered tag signer signature ↦ some (record {
    owner = r.name;
    type_covered = covered;
    key_tag = tag;
    signer_name = signer;
    signature = signature;
  })
  | _ ↦ none
]

abbrev pub as_nsec3 : Rr → Option Nsec3
as_nsec3 r = elim r.rdata [
  | Rdata.nsec3 flags types hashes ↦
      some (record { owner = r.name; flags = flags; type_bit_map = types; hashes = hashes })
  | _ ↦ none
]

-- `dns.Msg`
pub record Msg : Type 0 where
  pub id : ℕ
  pub response : Bool
  pub authoritative : Bool
  pub truncated : Bool
  pub recursion_desired : Bool
  pub recursion_available : Bool
  pub authenticated_data : Bool
  pub checking_disabled : Bool
  pub rcode : ℕ
  pub question : List Question
  pub answer : List Rr
  pub ns : List Rr
  pub extra : List Rr

-- `new(dns.Msg)`
abbrev pub empty_msg : Msg
empty_msg = record {
  id = 0;
  response = false;
  authoritative = false;
  truncated = false;
  recursion_desired = false;
  recursion_available = false;
  authenticated_data = false;
  checking_disabled = false;
  rcode = 0;
  question = [];
  answer = [];
  ns = [];
  extra = [];
}

abbrev pub type_a : ℕ
type_a = 1

abbrev pub type_ns : ℕ
type_ns = 2

abbrev pub type_cname : ℕ
type_cname = 5

abbrev pub type_soa : ℕ
type_soa = 6

abbrev pub type_hinfo : ℕ
type_hinfo = 13

abbrev pub type_aaaa : ℕ
type_aaaa = 28

abbrev pub type_opt : ℕ
type_opt = 41

abbrev pub type_ds : ℕ
type_ds = 43

abbrev pub type_rrsig : ℕ
type_rrsig = 46

abbrev pub type_nsec : ℕ
type_nsec = 47

abbrev pub type_dnskey : ℕ
type_dnskey = 48

abbrev pub type_nsec3 : ℕ
type_nsec3 = 50

abbrev pub type_any : ℕ
type_any = 255

abbrev pub class_inet : ℕ
class_inet = 1

abbrev pub rootzone : Bytes
rootzone = codes "."

-- What the library does with messages: `dns.Copy`, which makes an equal record, and `SetReply`,
-- which turns a message into a reply to a request.
pub record MsgLib : Type 0 where
  pub copy : Rr → Rr
  pub copy_eq : (r : Rr) → copy r ≡ r
  pub set_reply : Msg → Msg → Msg
  pub set_reply_id : (m req : Msg) → (set_reply m req).id ≡ req.id
  pub set_reply_response : (m req : Msg) → (set_reply m req).response ≡ true
  pub set_reply_answer : (m req : Msg) → (set_reply m req).answer ≡ m.answer
  pub set_reply_truncated : (m req : Msg) → (set_reply m req).truncated ≡ m.truncated

-- One value of the interface, for examples.
abbrev reply : Msg → Msg → Msg
reply m req = record m { id = req.id; response = true; question = req.question }

unfoldable pub msg_lib : MsgLib
msg_lib = record {
  copy = λ r. r;
  copy_eq = λ r. refl;
  set_reply = reply;
  set_reply_id = λ m req. refl;
  set_reply_response = λ m req. refl;
  set_reply_answer = λ m req. refl;
  set_reply_truncated = λ m req. refl;
}

-- ===== src/Doh/Reply.antt =====
-- doh/msg.go: the JSON form of a message. The text of a record without its header is a parameter;
-- an empty message, Go's `nil`, has no JSON form.
use sdns.Base.{ℕ, Bool, List, map, Bytes, Option, none, some}
use sdns.Dns.{Question, Rr, Msg}

-- `RR`
pub record RecordView : Type 0 where
  pub name : Bytes
  pub rrtype : ℕ
  pub ttl : ℕ
  pub text : Bytes

-- `Msg`
pub record View : Type 0 where
  pub status : ℕ
  pub tc : Bool
  pub rd : Bool
  pub ra : Bool
  pub ad : Bool
  pub cd : Bool
  pub question : List Question
  pub answer : List RecordView
  pub authority : List RecordView

module _ (text_of : Rr → Bytes) where
  abbrev pub view_of : Rr → RecordView
  view_of r = record { name = r.name; rrtype = r.rrtype; ttl = r.ttl; text = text_of r }

  -- `NewMsg`
  unfoldable pub new_msg : Option Msg → Option View
  new_msg none = none
  new_msg (some m) = some (record {
    status = m.rcode;
    tc = m.truncated;
    rd = m.recursion_desired;
    ra = m.recursion_available;
    ad = m.authenticated_data;
    cd = m.checking_disabled;
    question = m.question;
    answer = map view_of m.answer;
    authority = map view_of m.ns;
  })

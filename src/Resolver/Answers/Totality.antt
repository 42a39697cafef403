-- ===== src/Resolver/Answers/Totality.antt =====
-- The branches on a reply that ends the resolution end (resolver.go, `Resolve`).
use sdns.Base.{ℕ, ◌<◌, ◌≤◌, ◌≡◌, Bool, true, false, ◌&&◌, ◌==◌, List, Option, none, some, arith}
use sdns.Dns.{Question, Rr, Msg, type_ds}
use sdns.Handler.Env.{State, Proto, rcode_name_error}
use sdns.Records.{is_empty, upper_name}
use sdns.Resolver.Addresses.Totality.{goes_on, is_ready, is_whole}
use sdns.Resolver.Env.{Env, Call, Resolver, Attempt, done}
use sdns.Resolver.Network.{Reliable}
use sdns.Resolver.Answers.{rejected, answered, trim_answer, undelegated}
use sdns.Resolver.Soundness.{IsSound, Ends, ends, if-Ends}

-- a trimmed answer is as whole as before
trim_whole :
    (p : Proto) (extra : Bool) (opt : Option Rr) (resp : Msg)
    → is_whole p (done resp) ≡ true
    → is_whole p (done (trim_answer extra opt resp)) ≡ true
unfolding trim_answer
trim_whole p true opt resp w = w
trim_whole p false none resp w = w
trim_whole p false (some opt) resp w = w

module _ {R : Type 0} (env : Env R) (reliable : Reliable env) (res : Resolver R) (rounds : ℕ)
    (enough : 2 ≤ rounds) (call : Call) (q : Question) (not_ds : (q.qtype == type_ds) ≡ false)
    (res_ends : (c : Call) (s : State R)
      → is_ready c ≡ true
      → c.depth < call.depth
      → IsSound s
      → Ends (is_whole c.proto) (res c s)) where
  abbrev whole : Attempt Msg → Bool
  whole = is_whole call.proto

  pub rejected-Ends :
      (resp : Msg) (s : State R)
      → whole (done resp) ≡ true
      → IsSound s
      → Ends whole (rejected env res rounds call q resp s)
  unfolding rejected
  rejected-Ends resp s w h =
      if-Ends whole (resp.rcode == rcode_name_error && is_empty (upper_name q.name))
        (λ e. rw reliable.keys.1 (ends h w)) (λ e. ends h w)

  pub undelegated-Ends :
      (resp : Msg) (s : State R)
      → whole (done resp) ≡ true
      → IsSound s
      → Ends whole (undelegated env res rounds call q resp s)
  unfolding undelegated
  undelegated-Ends resp s w h = rw not_ds (ends h w)

  pub answered-Ends :
      (req resp : Msg) (ds : List Rr) (s : State R)
      → goes_on req ≡ true
      → whole (done resp) ≡ true
      → IsSound s
      → Ends whole (answered env res rounds call q req resp ds s)
  unfolding answered
  answered-Ends req resp ds s g w h =
      if-Ends whole req.checking_disabled
        (λ e. ends h (trim_whole call.proto call.extra (env.edns0 req) resp w))
        (λ e. absurd (ground arith))

-- ===== src/Resolver/Resolve/Totality.antt =====
-- The resolution without DNSSEC ends (resolver.go, `Resolve`).
use mathlib.Core.Path.{subst}
use sdns.Base.{
  ℕ, zero, suc, ◌+◌, ◌<◌, ◌≤◌, ◌≡◌, refl, Bool, true, false, not, ◌&&◌, ◌==◌, List, [], ◌∷◌, none,
  ◌>>=◌, length, arith, Option-cases, inl, inr,
}
use sdns.Cache.Servers.{AuthServers}
use sdns.Dns.{Question, Rr, Msg, empty_msg, type_ds}
use sdns.Handler.Env.{State, rcode_success}
use sdns.Records.{is_empty}
use sdns.Resolver.Addresses.Totality.{goes_on, is_ready, is_whole}
use sdns.Resolver.Env.{Env, Call, Resolver, Attempt, done}
use sdns.Resolver.Glue.{ns_hosts}
use sdns.Resolver.Glue.Closed.{keys_closed, ns_hosts_closed, IsClosed-of_is_closed}
use sdns.Resolver.Network.{Reliable, is_closed, closed_hosts, closed_targets, is_regular}
use sdns.Resolver.Network.Lookups.{lookup-Leaves}
use sdns.Resolver.Resolve.{referred, received, asked, started, resolve_first, resolve}
use sdns.Resolver.Soundness.{IsSound, Ends, ends, if-Ends, ncache-IsSound, now-IsSound}
use sdns.Resolver.Zones.{search_cache}
use sdns.Resolver.Zones.Closest.{Finds, search_cache_total}
use sdns.Resolver.Zones.Served.{search_cache-IsServed}
use sdns.Resolver.Answers.Totality.{rejected-Ends, undelegated-Ends, answered-Ends}
use sdns.Resolver.Delegations.Totality.{delegated-Ends}

keys_closed_nil : keys_closed [] ≡ true
unfolding keys_closed
keys_closed_nil = refl

module _ {R : Type 0} (env : Env R) (reliable : Reliable env) (res : Resolver R) (rounds : ℕ)
    (enough : 2 ≤ rounds) (call : Call) (q : Question) (not_ds : (q.qtype == type_ds) ≡ false)
    (res_ends : (c : Call) (s : State R)
      → is_ready c ≡ true
      → c.depth < call.depth
      → IsSound s
      → Ends (is_whole c.proto) (res c s)) where
  abbrev whole : Attempt Msg → Bool
  whole = is_whole call.proto

  no_targets : closed_targets [] ≡ true
  unfolding closed_targets
  no_targets = refl

  referred-Ends :
      (req resp : Msg) (servers : AuthServers) (ds : List Rr) (s : State R)
      → goes_on req ≡ true
      → closed_hosts resp.ns ≡ true
      → whole (done resp) ≡ true
      → IsSound s
      → Ends whole (referred env res rounds call q req resp servers ds s)
  unfolding referred
  referred-Ends req resp servers ds s g c w h = elim (Option-cases (ns_hosts none [] resp.ns).0) [
    | inl e ↦
        rw (e, referred)
          (undelegated-Ends env reliable res rounds enough call q not_ds res_ends resp s w h)
    | inr (nsrr, e) ↦
        rw (e, referred)
          (delegated-Ends env reliable res rounds enough call q not_ds res_ends nsrr _ req resp
            servers ds s g (ns_hosts_closed none [] resp.ns keys_closed_nil c) w h)
  ]

  received-Ends :
      (req resp : Msg) (servers : AuthServers) (ds : List Rr) (s : State R)
      → goes_on req ≡ true
      → closed_hosts resp.ns ≡ true
      → whole (done resp) ≡ true
      → IsSound s
      → Ends whole (received env res rounds call q req resp servers ds s)
  unfolding received
  received-Ends req resp servers ds s g c w h =
      if-Ends whole (not (resp.rcode == rcode_success) && is_empty resp.answer)
        (λ e. rejected-Ends env reliable res rounds enough call q not_ds res_ends resp s w h)
        (λ e.
          if-Ends whole (not (is_empty resp.answer))
            (λ f.
              answered-Ends env reliable res rounds enough call q not_ds res_ends req _ ds s g w h)
            (λ f.
              if-Ends whole (not (is_empty resp.ns))
                (λ i. referred-Ends req resp servers ds s g c w h)
                (λ i. ends h (
                  let k = reliable.set_rcode_truncated empty_msg req rcode_success in
                  let a = reliable.set_rcode_answer empty_msg req rcode_success in
                  ground (arith, no_targets)))))

  asked-Ends :
      (servers : AuthServers) (ds : List Rr) (s : State R)
      → goes_on call.req ≡ true
      → is_empty servers.list ≡ false
      → IsSound s
      → Ends whole (asked env res rounds call q servers ds s)
  unfolding asked
  asked-Ends servers ds s g n h =
      let (c, outcome, e, l) = lookup-Leaves env reliable call.proto call.req servers s n in
      let h' = now-IsSound (env.net.later s.now) h in
      elim (Option-cases outcome) [
        | inl f ↦ rw (e, f) (ends h' refl)
        | inr (m, f) ↦
            let regular : is_regular call.proto m ≡ true =
              (let k = l.outcome_regular in ground arith) in
            rw (e, f)
              (if-Ends whole m.truncated (λ t. ends h' (ground arith))
                (λ t.
                  received-Ends c.req _ servers ds _
                    (let a = l.question in let b = l.checking in cc) (ground arith) (ground arith)
                    h'))
      ]

  started-Ends :
      (s : State R)
      → goes_on call.req ≡ true
      → is_empty call.servers.list ≡ false
      → (call.root ≡ true → is_closed q.name ≡ true)
      → IsSound s
      → Ends whole (started env res rounds call q s)
  unfolding started
  started-Ends s g n closed h =
      if-Ends whole (call.root && not (q.qtype == type_ds)) (λ e. from_zone (closed (ground arith)))
        (λ e. asked-Ends call.servers call.parentdsrr s g n h)
    where
      cd : Bool
      cd = call.req.checking_disabled

      nothing_found : ¬ Finds s.now env.rootservers none
      nothing_found f = elim f [ ]

      from_zone :
          is_closed q.name ≡ true
          → Ends whole (
              search_cache s.now env.rootservers (suc (length q.name)) q cd s.ncache
              >>= λ (ncache, (servers, ds)).
                  asked env res rounds call q servers ds (record s { ncache = ncache }))
      from_zone c =
          elim (Option-cases
            (search_cache s.now env.rootservers (suc (length q.name)) q cd s.ncache)) [
              | inl e ↦ absurd (
                  nothing_found (
                    subst (Finds s.now env.rootservers) e (
                      search_cache_total s.now env.rootservers (suc (length q.name)) q cd s.ncache
                        (IsClosed-of_is_closed q.name c) (omega arith) h.ncache.distinct)))
              | inr ((ncache, (servers, ds)), e) ↦
                  let (k, m) =
                    search_cache-IsServed s.now env.rootservers (suc (length q.name)) q cd s.ncache
                      reliable.roots h.ncache e in
                  rw e (asked-Ends servers ds _ g m (ncache-IsSound ncache k h))
            ]

module _ {R : Type 0} (env : Env R) (reliable : Reliable env) where
  by_question :
      (fuel : ℕ) (call : Call) (s : State R) (qs : List Question)
      → call.req.question ≡ qs
      → is_ready call ≡ true
      → 2 ≤ fuel
      → ((c : Call) (t : State R)
          → is_ready c ≡ true
          → c.depth < call.depth
          → IsSound t
          → Ends (is_whole c.proto) (resolve env fuel c t))
      → IsSound s
      → Ends (is_whole call.proto) (resolve_first env (resolve env fuel) fuel call qs s)
  unfolding resolve_first
  by_question fuel call s [] e r enough ih h = absurd (ground arith)
  by_question fuel call s (q ∷ qs) e r enough ih h =
      started-Ends env reliable (resolve env fuel) fuel enough call q (ground arith) ih s
        (ground arith) (ground arith) (λ rooted. ground arith) h

  -- Without DNSSEC, a resolution ends for a question that is not for a DS record, from a sound state
  -- with servers to ask, on fuel that exceeds its depth by more than two: it returns a message or an
  -- error, keeps the caches sound, and its message is whole over TCP. Assumed are root servers and root
  -- keys; a network that sends names that end with a dot, and whole messages over TCP; and a library
  -- whose new queries ask what they are asked to, and whose replies are not truncated anew.
  pub resolve-Ends :
      (fuel : ℕ) (call : Call) (s : State R)
      → is_ready call ≡ true
      → call.depth + 2 < fuel
      → IsSound s
      → Ends (is_whole call.proto) (resolve env fuel call s)
  unfolding resolve
  resolve-Ends zero call s r lt h = absurd (omega arith)
  resolve-Ends (suc fuel) call s r lt h =
      by_question fuel call s call.req.question refl r (omega arith)
        (λ c t r' lt' h'. resolve-Ends fuel c t r' (omega arith) h') h

-- ===== src/Handler/Cname.antt =====
-- handler.go, `additionalAnswer`: a chain of CNAME records is followed up to five lookups.
pub mod Chains
use sdns.Base.{
  ℕ, zero, suc, Bool, true, false, not, ◌&&◌, ◌||◌, ◌==◌, List, [], ◌∷◌, ◌++◌, map, Bytes, Option,
  none, some, if◌then◌else◌, ◌>>=◌, is_some,
}
use sdns.Cache.Key.{hash}
use sdns.Cache.Outcome.{ok, err}
use sdns.Cache.QueryCache
use sdns.Dns.{Question, Rr, Rdata, Msg, type_a, type_aaaa, type_cname}
use sdns.Handler.Env.{Env, State, Proto}
use sdns.Records.{is_empty}

abbrev pub is_address_type : ℕ → Bool
is_address_type t = t == type_a || t == type_aaaa

-- `answerFound` after the loop over the answer
unfoldable pub answer_found : ℕ → List Rr → Bool
answer_found qtype [] = false
answer_found qtype (r ∷ rs) = (r.rrtype == qtype && is_address_type qtype) || answer_found qtype rs

-- the target of the last CNAME of an answer; a record of the type is a `*dns.CNAME`
unfoldable pub last_target : Option Bytes → List Rr → Option Bytes
last_target found [] = found
last_target found (r ∷ rs) =
    last_target (elim r.rdata [ Rdata.cname target ↦ some target | _ ↦ found ]) rs

-- `cnameDepth`
abbrev pub cname_depth : ℕ
cname_depth = 5

module _ {R : Type 0} (env : Env R) where
  -- The answer that the resolver finds is cached, unless it is empty.
  unfoldable pub keep_found : ℕ → State R → Option Msg → Option (State R × List Rr)
  keep_found key t none = some (t, [])
  keep_found key t (some resp) =
      if is_empty resp.answer
      then some (t, [])
      else some (
        record t { qcache = QueryCache.set env.lib env.new_limiter t.pick t.now key resp t.qcache },
        resp.answer,
      )

  -- A lookup of the chain: from the cache, or by the resolver.
  unfoldable pub lookup_cname : Proto → Question → Bool → State R → Option (State R × List Rr)
  unfolding keep_found
  lookup_cname proto q cd s =
      let key = hash q cd in
      let req = env.new_query q.name q.qtype cd in
      let (qcache, result) = QueryCache.get env.lib s.now key req s.qcache in
      let s' = record s { qcache = qcache } in
      elim result [
        | ok (resp, _) ↦ some (s', resp.answer)
        | err e ↦
            env.resolve proto req env.config.maxdepth s' >>= λ (t, found). keep_found key t found
      ]

  -- the loop from the label `lookup`, with the rounds that `cnameDepth` leaves
  unfoldable pub follow :
      ℕ → Proto → Question → Bool → State R → List Rr → Option (State R × List Rr)
  follow zero proto q cd s answer = some (s, answer)
  follow (suc depth) proto q cd s answer = lookup_cname proto q cd s >>= λ (t, found).
      let answer' = answer ++ map env.lib.copy found in
      elim (last_target none found) [
        | none ↦ some (t, answer')
        | some target ↦ follow depth proto (record q { name = target }) cd t answer'
      ]

  -- `additionalAnswer`
  unfoldable pub additional_answer :
      Proto → Question → Bool → State R → Msg → Option (State R × Msg)
  additional_answer proto q cd s msg =
      if answer_found q.qtype msg.answer
      then some (s, msg)
      else elim (last_target none msg.answer) [
        | none ↦ some (s, msg)
        | some target ↦
            follow cname_depth proto (record q { name = target; qclass = 1 }) cd s msg.answer
            >>= λ (t, answer). some (t, record msg { answer = answer })
      ]

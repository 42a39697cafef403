-- ===== src/Server/Events/Lifetime.antt =====
-- The program answers every client that its access list covers (handler.go, resolver.go, main.go).
use sdns.Base.{
  ℕ, ◌+◌, ◌<◌, ◌≡◌, ◌&&◌, ◌>>=◌, codes, bytes_eq, refl, Bool, true, false, List, [], ◌∷◌, Bytes,
  Option, none, some, arith, inl, inr,
}
use sdns.Cache.BlockCache.{BlockCache}
use sdns.Cache.ErrorCache.Reads as ErrorReads
use sdns.Cache.LookupQueue.Safety as QueueSafety
use sdns.Cache.NsCache.{new_ns_cache}
use sdns.Cache.QueryCache.Answers as QueryAnswers
use sdns.Cache.QueryCache.Reads as QueryReads
use sdns.Base.Map
use sdns.Dns.{Msg}
use sdns.Doh.Http as Web
use sdns.Doh.Http.{WebLib, Written, closed_name, json_request, serve_http}
use sdns.Doh.Http.Serving.{is_admitted, serve_http-Serves}
use sdns.Doh.Qtype.{parse_qtype}
use sdns.Handler.Env as HandlerEnv
use sdns.Handler.Env.{State, https}
use sdns.Handler.Invariant.{Gives, gives, given, notes, anything}
use sdns.Handler.Query.{query}
use sdns.Recursion.{recursive}
use sdns.Recursion.Totality.{Joined, goes_unchecked, recursion-Returns}
use sdns.Resolver.Addresses.Totality.{can_ask}
use sdns.Resolver.Chain.{question_of}
use sdns.Resolver.Env.{Env}
use sdns.Resolver.Network.{Reliable, closed_targets}
use sdns.Resolver.Soundness.{IsSound}
use sdns.Server.{Ranger}
use sdns.Server.Access.{allows}
use sdns.Server.Events.{Event, Response, request, web_request, message, page, new_caches}

-- The caches that `NewResolver` makes are sound, before it asks for the root servers.
pub new_caches-IsSound :
    (R : Type 0) (cache_size rate_limit expire : ℕ) (block_list : BlockCache)
    → IsSound (new_caches R cache_size rate_limit expire block_list)
unfolding new_caches new_ns_cache Map.lookup
new_caches-IsSound R cache_size rate_limit expire block_list = record {
  qcache = QueryReads.new_query_cache-IsValid R cache_size rate_limit;
  ecache = ErrorReads.new_error_cache-IsValid cache_size expire;
  ncache = record { distinct = tt; some_server = λ key ns e. absurd (ground arith) };
  lqueue = QueueSafety.new_lookup_queue-IsValid;
  targets = QueryAnswers.new_query_cache-Holds closed_targets R cache_size rate_limit;
}

-- a message asks with the CD flag, not for a DS record, and for a closed name for which the HINFO note
-- parses
abbrev pub can_go : {R : Type 0} → HandlerEnv.Env R → Msg → Bool
can_go henv m = goes_unchecked m && notes henv m.question

abbrev pub may_ask : {R : Type 0} → HandlerEnv.Env R → Option Msg → Bool
may_ask henv none = true
may_ask henv (some m) = can_go henv m

-- what a request over HTTPS holds: the message of its parameter, that of its body, and its name
abbrev pub holds_asked : {R : Type 0} → HandlerEnv.Env R → WebLib → Web.Request → Bool
holds_asked henv web r =
    let q = question_of (closed_name r.name) (parse_qtype r.type_name) in
    may_ask henv (web.decode_url r.dns >>= web.unpack)
    && (may_ask henv (r.body >>= web.unpack)
        && (bytes_eq r.cd (codes "true") && (can_ask true (q ∷ []) && notes henv (q ∷ []))))

-- the requests that ask so
abbrev pub goes_on : {R Ip : Type 0} → HandlerEnv.Env R → WebLib → Event Ip → Bool
goes_on henv web (request now pick method ip req) = can_go henv req
goes_on henv web (web_request now pick ip r) = holds_asked henv web r
goes_on henv web _ = true

-- a client gets a message, or a page other than the one for clients that are not on the access list
abbrev pub is_admitted_response : Option Response → Bool
is_admitted_response none = false
is_admitted_response (some (message m)) = true
is_admitted_response (some (page w)) = is_admitted w

held :
    {R : Type 0} (henv : HandlerEnv.Env R) (web : WebLib) (o : Option Bytes) (buf : Bytes) (m : Msg)
    → may_ask henv (o >>= web.unpack) ≡ true
    → o ≡ some buf
    → web.unpack buf ≡ some m
    → can_go henv m ≡ true
held henv web o buf m h e f = ground arith

module _ {Network Ip Set : Type 0} (ranger : Ranger Network Ip Set) where
  -- whether an event is a request of a client that the list covers
  abbrev pub is_answered : List Bytes → Event Ip → Bool
  is_answered cidrs (request now pick method ip req) = allows ranger cidrs ip
  is_answered cidrs (web_request now pick ip r) = allows ranger cidrs ip
  is_answered cidrs _ = false

module _ {R Network Ip Set : Type 0} (env : Env R) (reliable : Reliable env) (fuel : ℕ)
    (henv : HandlerEnv.Env R) (joined : Joined henv) (enough : henv.config.maxdepth + 2 < fuel)
    (ranger : Ranger Network Ip Set) (fqdn : Bytes → Bytes) (web : WebLib) where
  asked_over_https :
      (s : State R) (m : Msg)
      → can_go henv m ≡ true
      → IsSound s
      → Gives IsSound anything (query (recursive env fuel henv) https s m)
  asked_over_https s m g h =
      let (t, msg, e, k) =
        recursion-Returns env reliable fuel henv joined enough https s m (ground arith)
          (ground arith) h in
      rw e (gives k refl)

  served :
      (r : Web.Request)
      → holds_asked henv web r ≡ true
      → (s : State R) → IsSound s
      → (t : State R) × (w : Written) × (serve_http web
            (query (recursive env fuel henv) https)
            true
            s
            r
          ≡ some (t, w))
        × IsSound t
        × (is_admitted w ≡ true)
  unfolding json_request
  served r g s h = given (
      serve_http-Serves web (query (recursive env fuel henv) https) IsSound
        (λ m. can_go henv m ≡ true) asked_over_https r
        (λ buf m o e. elim o [
          | inl f ↦ held henv web (web.decode_url r.dns) buf m (ground arith) f e
          | inr f ↦ held henv web r.body buf m (ground arith) f e
        ])
        (λ opt. ground arith) s h)

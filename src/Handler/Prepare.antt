-- ===== src/Handler/Prepare.antt =====
-- handler.go: the EDNS0 part of `query`, and the failure reply `handleFailed`.
pub mod Replies
use sdns.Base.{
  ℕ, Bool, true, false, not, ◌==◌, List, [], ◌∷◌, ◌++◌, codes, Option, none, some, if◌then◌else◌,
  keep,
}
use sdns.Dns.{Rr, Rdata, Msg, empty_msg, type_opt}
use sdns.Handler.Env.{Env, State, OptLib, default_msg_size, rcode_bad_vers}

-- `dns.EDNS0SUBNET`
abbrev pub edns0_subnet : ℕ
edns0_subnet = 8

-- the loop that keeps the client subnet options alone
abbrev pub keep_subnet : Rr → Rr
keep_subnet r = elim r.rdata [
  | Rdata.opt options ↦ record r { rdata = Rdata.opt (keep (λ code. code == edns0_subnet) options) }
  | _ ↦ r
]

-- A request with a version that is not supported, or the request to go on with, its OPT record, and
-- whether the client asked for DNSSEC.
pub data Prepared : Type 0 where
  refused : Msg → Prepared
  ready : Msg → Rr → Bool → Prepared

module _ {R : Type 0} (env : Env R) where
  -- the OPT record for a request that has none
  abbrev pub new_opt : Rr
  new_opt = env.opts.set_do true (
      env.opts.set_udp_size default_msg_size (record {
        name = codes ".";
        rrtype = type_opt;
        rrclass = 0;
        ttl = 0;
        rdata = Rdata.opt [];
      }))

  unfoldable pub prepare : Msg → Prepared
  prepare req = elim (env.opts.edns0 req) [
    | none ↦ ready (record req { extra = req.extra ++ new_opt ∷ [] }) new_opt false
    | some opt ↦
        let sized = env.opts.set_udp_size default_msg_size opt in
        if not (env.opts.version sized == 0)
        then refused (
            env.opts.put_edns0
              (env.opts.set_extended_rcode rcode_bad_vers (env.opts.set_version 0 sized)) req)
        else (let kept = keep_subnet sized in
            let final = env.opts.set_do true (record kept { ttl = 0 }) in
            ready (env.opts.put_edns0 final req) final (env.opts.is_do kept))
  ]

  -- `handleFailed`
  unfoldable pub handle_failed : Msg → ℕ → Bool → Msg
  handle_failed msg rcode dsf =
      let m = env.set_rcode (record empty_msg { extra = msg.extra }) msg rcode in
      let m' = record m { recursion_available = true } in
      elim (env.opts.edns0 m') [
        | none ↦ m'
        | some opt ↦ env.opts.put_edns0 (env.opts.set_do dsf opt) m'
      ]

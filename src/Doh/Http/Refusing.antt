-- ===== src/Doh/Http/Refusing.antt =====
-- The errors of the handlers over HTTPS (doh.go).
use sdns.Base.{
  ℕ, ◌≡◌, ◌≢◌, refl, Bool, not, ◌||◌, ◌==◌, Bytes, Option, none, some, if◌then◌else◌, ◌>>=◌, true,
  false, arith, Option-cases, inl, inr,
}
use sdns.Dns.{Msg}
use sdns.Doh.Http.{
  Method, get, post, other, Request, Written, failed, WebLib, write, answer_wire, serve_decoded,
  serve_body, handle_wire_format, request_opt, handle_json, serve_http,
}
use sdns.Doh.Qtype.{parse_qtype, type_none}
use sdns.Handler.Env.{State}
use sdns.Records.{is_empty}

-- an error other than 500 comes with the given state
abbrev Keeps : {R : Type 0} → State R → Option (State R × Written) → Type 0
Keeps {R} s served = (t : State R) (code : ℕ) → served ≡ some (t, failed code) → code ≢ 500 → t ≡ s

module _ {R : Type 0} (s : State R) where
  if-Keeps :
      (b : Bool) (x y : Option (State R × Written))
      → Keeps s x
      → Keeps s y
      → Keeps s (if b then x else y)
  if-Keeps true x y h k = h
  if-Keeps false x y h k = k

  refused-Keeps : (status : ℕ) → Keeps s (some (s, failed status))
  refused-Keeps status t code e n = cc

  -- what is written after a query is no other error
  written-Keeps :
      (content : Bytes) (m : Option (State R × Msg)) (pack : Msg → Option Bytes)
      → Keeps s (m >>= λ (t, msg). some (t, write content (pack msg)))
  unfolding write
  written-Keeps content none pack t code e n = absurd (ground arith)
  written-Keeps content (some (u, msg)) pack t code e n = elim (Option-cases (pack msg)) [
    | inl f ↦ absurd (ground arith)
    | inr (b, f) ↦ absurd (ground arith)
  ]

module _ {R : Type 0} (lib : WebLib) (query : State R → Msg → Option (State R × Msg)) where
  answer_wire-Keeps : (s : State R) (buf : Bytes) → Keeps s (answer_wire lib query s buf)
  unfolding answer_wire
  answer_wire-Keeps s buf = elim (Option-cases (lib.unpack buf)) [
    | inl e ↦ rw (e, answer_wire) (refused-Keeps s 400)
    | inr (m, e) ↦ rw (e, answer_wire) (written-Keeps s _ (query s m) lib.pack)
  ]

  serve_decoded-Keeps : (s : State R) (buf : Option Bytes) → Keeps s (serve_decoded lib query s buf)
  unfolding serve_decoded
  serve_decoded-Keeps s none = refused-Keeps s 400
  serve_decoded-Keeps s (some buf) =
      if-Keeps s (is_empty buf) _ _ (refused-Keeps s 400) (answer_wire-Keeps s buf)

  serve_body-Keeps : (s : State R) (buf : Option Bytes) → Keeps s (serve_body lib query s buf)
  unfolding serve_body
  serve_body-Keeps s none = refused-Keeps s 500
  serve_body-Keeps s (some buf) = answer_wire-Keeps s buf

  wire_method-Keeps :
      (s : State R) (r : Request) (m : Method)
      → r.method ≡ m
      → Keeps s (handle_wire_format lib query s r)
  unfolding handle_wire_format
  wire_method-Keeps s r get e =
      rw (e, handle_wire_format) (serve_decoded-Keeps s (lib.decode_url r.dns))
  wire_method-Keeps s r post e =
      rw (e, handle_wire_format)
        (if-Keeps s _ _ _ (refused-Keeps s 415) (serve_body-Keeps s r.body))
  wire_method-Keeps s r other e = rw (e, handle_wire_format) (refused-Keeps s 405)

  handle_json-Keeps : (s : State R) (r : Request) → Keeps s (handle_json lib query s r)
  unfolding handle_json
  handle_json-Keeps s r =
      if-Keeps s (is_empty r.name || parse_qtype r.type_name == type_none) _ _ (refused-Keeps s 400)
        (elim (Option-cases (request_opt lib r)) [
          | inl e ↦ rw e (refused-Keeps s 400)
          | inr (opt, e) ↦ rw e (written-Keeps s _ (query s _) (λ msg. lib.marshal _))
        ])

  served-Keeps :
      (allowed : Bool) (s : State R) (r : Request) (m : Method)
      → r.method ≡ m
      → Keeps s (serve_http lib query allowed s r)
  unfolding serve_http
  served-Keeps allowed s r get e =
      if-Keeps s (not allowed) _ _ (refused-Keeps s 401) (
        rw e
          (if-Keeps s (is_empty r.dns) _ _ (handle_json-Keeps s r) (wire_method-Keeps s r get e)))
  served-Keeps allowed s r post e =
      if-Keeps s (not allowed) _ _ (refused-Keeps s 401) (rw e (wire_method-Keeps s r post e))
  served-Keeps allowed s r other e =
      if-Keeps s (not allowed) _ _ (refused-Keeps s 401) (rw e (wire_method-Keeps s r other e))

  -- A request over HTTPS that is answered by an error other than 500 has changed nothing: no cache, no
  -- queue and no block list.
  pub serve_http_refuses :
      (allowed : Bool) (s t : State R) (r : Request) (code : ℕ)
      → serve_http lib query allowed s r ≡ some (t, failed code)
      → code ≢ 500
      → t ≡ s
  serve_http_refuses allowed s t r code = served-Keeps allowed s r r.method refl t code

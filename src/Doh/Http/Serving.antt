-- ===== src/Doh/Http/Serving.antt =====
-- The replies of the handlers over HTTPS (doh.go).
use sdns.Base.{
  ◌≡◌, ◌⊎◌, refl, Bool, true, not, ◌||◌, ◌==◌, ℕ, Bytes, Option, none, some, if◌then◌else◌,
  Option-cases, inl, inr,
}
use sdns.Dns.{Msg, Rr}
use sdns.Doh.Http.{
  Method, get, post, other, Request, Written, failed, sent, write, WebLib, answer_wire,
  serve_decoded, serve_body, handle_wire_format, request_opt, json_request, handle_json, serve_http,
}
use sdns.Doh.Qtype.{parse_qtype, type_none}
use sdns.Handler.Env.{State}
use sdns.Handler.Invariant.{Gives, gives, anything, bind-Gives, if-Gives}
use sdns.Records.{is_empty}

-- what is written to a client that the access list contains
abbrev pub is_admitted : Written → Bool
is_admitted (failed code) = not (code == 401)
is_admitted (sent content body) = true

is_admitted-write :
    (content : Bytes) (packed : Option Bytes) → is_admitted (write content packed) ≡ true
unfolding write
is_admitted-write content none = refl
is_admitted-write content (some packed) = refl

-- The query keeps an invariant for the messages of a kind, and what the request holds is of the kind.
module _ {R : Type 0} (lib : WebLib) (query : State R → Msg → Option (State R × Msg))
    (Inv : State R → Type 0) (Asks : Msg → Type 0)
    (query_gives : (s : State R) (m : Msg) → Asks m → Inv s → Gives Inv anything (query s m)) where
  abbrev Serves : Option (State R × Written) → Type 0
  Serves = Gives Inv is_admitted

  refused :
      (s : State R) (code : ℕ) → not (code == 401) ≡ true → Inv s → Serves (some (s, failed code))
  refused s code admitted h = gives h admitted

  answer_wire-Serves :
      (s : State R) (buf : Bytes)
      → ((m : Msg) → lib.unpack buf ≡ some m → Asks m)
      → Inv s
      → Serves (answer_wire lib query s buf)
  unfolding answer_wire
  answer_wire-Serves s buf asked h = elim (Option-cases (lib.unpack buf)) [
    | inl e ↦ rw (e, answer_wire) (refused s 400 refl h)
    | inr (m, e) ↦
        rw (e, answer_wire)
          (bind-Gives Inv anything is_admitted _ (query_gives s m (asked m e) h)
            (λ t msg k g. gives k (is_admitted-write _ _)))
  ]

  module _ (r : Request)
      (asked : (buf : Bytes) (m : Msg)
        → (lib.decode_url r.dns ≡ some buf) ⊎ (r.body ≡ some buf)
        → lib.unpack buf ≡ some m
        → Asks m)
      (named : (opt : Rr) → Asks (json_request r (parse_qtype r.type_name) opt)) where
    serve_decoded-Serves :
        (s : State R) (buf : Option Bytes)
        → lib.decode_url r.dns ≡ buf
        → Inv s
        → Serves (serve_decoded lib query s buf)
    unfolding serve_decoded
    serve_decoded-Serves s none e h = refused s 400 refl h
    serve_decoded-Serves s (some buf) e h =
        if-Gives Inv is_admitted (is_empty buf) (refused s 400 refl h)
          (answer_wire-Serves s buf (λ m. asked buf m (inl e)) h)

    serve_body-Serves :
        (s : State R) (buf : Option Bytes)
        → r.body ≡ buf
        → Inv s
        → Serves (serve_body lib query s buf)
    unfolding serve_body
    serve_body-Serves s none e h = refused s 500 refl h
    serve_body-Serves s (some buf) e h = answer_wire-Serves s buf (λ m. asked buf m (inr e)) h

    wire_method-Serves :
        (s : State R) (m : Method)
        → r.method ≡ m
        → Inv s
        → Serves (handle_wire_format lib query s r)
    unfolding handle_wire_format
    wire_method-Serves s get e h =
        rw (e, handle_wire_format) (serve_decoded-Serves s (lib.decode_url r.dns) refl h)
    wire_method-Serves s post e h =
        rw (e, handle_wire_format)
          (if-Gives Inv is_admitted _ (refused s 415 refl h) (serve_body-Serves s r.body refl h))
    wire_method-Serves s other e h = rw (e, handle_wire_format) (refused s 405 refl h)

    handle_json-Serves : (s : State R) → Inv s → Serves (handle_json lib query s r)
    unfolding handle_json
    handle_json-Serves s h =
        if-Gives Inv is_admitted (is_empty r.name || parse_qtype r.type_name == type_none)
          (refused s 400 refl h)
          (elim (Option-cases (request_opt lib r)) [
            | inl e ↦ rw e (refused s 400 refl h)
            | inr (opt, e) ↦ rw e (
                bind-Gives Inv anything is_admitted _ (query_gives s _ (named opt) h)
                  (λ t msg k g. gives k (is_admitted-write _ _)))
          ])

    -- The client is on the access list.
    pub serve_http-Serves : (s : State R) → Inv s → Serves (serve_http lib query true s r)
    unfolding serve_http
    serve_http-Serves s h = by_method r.method refl
      where
        by_method :
            (m : Method)
            → r.method ≡ m
            → Serves (elim r.method [
              | get ↦
                  if is_empty r.dns
                  then handle_json lib query s r
                  else handle_wire_format lib query s r
              | post ↦ handle_wire_format lib query s r
              | other ↦ handle_wire_format lib query s r
            ])
        by_method get e = rw e (
            if-Gives Inv is_admitted (is_empty r.dns) (handle_json-Serves s h)
              (wire_method-Serves s get e h))
        by_method post e = rw e (wire_method-Serves s post e h)
        by_method other e = rw e (wire_method-Serves s other e h)

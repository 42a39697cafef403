-- ===== src/Tests/Web.antt =====
-- Examples for api.go, doh.go and doh/.
use sdns.Base.{
  ℕ, ◌≡◌, refl, true, false, List, [], ◌∷◌, ◌++◌, Bytes, bytes_eq, codes, Option, some, none, arith,
  to_lower, lower_byte, bytes_Eq,
}
use sdns.Api.{exists_block, get_block, set_block, remove_block}
use sdns.Base.Map
use sdns.Cache.BlockCache
use sdns.Cache.BlockCache.Refinement
use sdns.Cache.BlockCache.Reads.{new_block_cache-IsValid}
use sdns.Dns.{Msg}
use sdns.Doh.Http.{post, Request, WebLib, handle_wire_format, serve_http}
use sdns.Doh.Http.Refusing
use sdns.Doh.Qtype.{
  upper_byte, to_upper, digits_from, digits, in_range, atoi, to_uint16, lookup_qtype, parse_qtype,
}
use sdns.Handler.Env.{State}
use sdns.Updater.{
  is_space, trim_left, trim_right, trim_space, fields_from, fields, is_comment, name_of, entry_of,
}
use sdns.Updater.Lists
use sdns.Updater.Lists.Loaded
use sdns.Updater.Loading
use sdns.Tests.Data.{request, found}
use sdns.Tests.Queries.{idle}

program : Unit {0}
unfolding Map.lookup Map.insert Map.remove lower_byte to_lower upper_byte to_upper digits_from
    digits in_range atoi to_uint16 lookup_qtype parse_qtype exists_block get_block set_block
    remove_block BlockCache.new_block_cache BlockCache.get BlockCache.set BlockCache.remove
    BlockCache.exists handle_wire_format serve_http is_space trim_left trim_right trim_space
    fields_from fields is_comment name_of entry_of
program = tt

-- a name closed with a dot, whatever it is
abbrev close : Bytes → Bytes
close name = name ++ codes "."

abbrev none_blocked : BlockCache.BlockCache
none_blocked = BlockCache.new_block_cache

aaaa : parse_qtype (codes "aaAa") ≡ 28
unfolding program
aaaa = refl

-- a library that unpacks every text as the same request
abbrev web_lib : WebLib
web_lib = record {
  decode_url = λ text. some text;
  unpack = λ buf. some request;
  pack = λ msg. some (codes "packed");
  marshal = λ view. some (codes "json");
  text_of = λ r. [];
  set_do = λ opt. opt;
  set_subnet = λ subnet opt. none;
}

abbrev answered : State ℕ → Msg → Option (State ℕ × Msg)
answered s m = some (s, found)

abbrev posted : Request
posted = record {
  method = post;
  dns = [];
  name = [];
  type_name = [];
  cd = [];
  do_flag = [];
  subnet = [];
  accepts_html = false;
  content_type = codes "application/dns-message";
  body = some (codes "wire");
}

serve_http_refuses_example : idle ≡ idle
unfolding program
serve_http_refuses_example =
    Refusing.serve_http_refuses web_lib answered true idle idle
      (record posted { content_type = codes "text/html" }) 415 refl (ground arith)

-- a host file with a comment, a name after an address, and a name on the whitelist
abbrev host_file : List Bytes
host_file = codes "# hosts" ∷ codes " 0.0.0.0  Ads.com # x" ∷ codes "b.com" ∷ []

ads_listed : Loading.is_listed close (bytes_eq (codes "b.com.")) (codes "ads.com.") host_file ≡ true
unfolding program
ads_listed = refl

-- set, removed in other letters, and another name
abbrev calls : List Refinement.Op
calls =
    Refinement.set_name (codes "A.com.")
    ∷ Refinement.remove_name (codes "a.COM.")
    ∷ Refinement.set_name (codes "b.com.")
    ∷ []

run_refines_example :
    let blocked =
      Refinement.blocked_after calls
        (codes "a.com.")
        (BlockCache.exists (codes "a.com.") none_blocked) in
    (BlockCache.exists (codes "a.com.") (Refinement.run calls none_blocked) ≡ blocked)
    × (BlockCache.get (codes "a.com.") (Refinement.run calls none_blocked) ≡ (blocked, blocked))
run_refines_example =
    Refinement.run_refines calls (codes "a.com.") none_blocked new_block_cache-IsValid

-- a file, and one that cannot be opened
abbrev files : List Lists.FileRead
files = Lists.whole host_file ∷ Lists.unopened ∷ []

fetch_blocklists-Fetches_example :
    Loaded.Fetches close true true
      (codes "b.com" ∷ [])
      (codes "c.com" ∷ [])
      files
      (λ name. false)
      none_blocked
      (Lists.fetch_blocklists close some
        (codes "x" ∷ [])
        []
        true
        (codes "b.com" ∷ [])
        (codes "c.com" ∷ [])
        files
        (λ name. false)
        none_blocked)
fetch_blocklists-Fetches_example =
    Loaded.fetch_blocklists-Fetches close some (codes "x" ∷ []) [] true (codes "b.com" ∷ [])
      (codes "c.com" ∷ []) files (λ name. false) none_blocked

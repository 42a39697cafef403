-- ===== src/Tests/Data.antt =====
-- The records, messages and caches of the examples.
use sdns.Base.{ℕ, ◌*◌, ◌^◌, true, [], ◌∷◌, codes}
use sdns.Cache.QueryCache.{QueryCache, new_query_cache}
use sdns.Cache.Servers.{AuthServers}
use sdns.Dns.{Question, Rr, Rdata, Msg, empty_msg, type_a, type_rrsig, class_inet}

abbrev pub a_question : Question
a_question = record { name = codes "a.com."; qtype = type_a; qclass = class_inet }

abbrev pub a_record : Rr
a_record = record {
  name = codes "a.com.";
  rrtype = type_a;
  rrclass = class_inet;
  ttl = 300;
  rdata = Rdata.a (codes "192.0.2.1");
}

abbrev pub request : Msg
request = record empty_msg { id = 7; recursion_desired = true; question = a_question ∷ [] }

abbrev pub found : Msg
found = record request { response = true; answer = a_record ∷ [] }

abbrev pub answers : QueryCache ℕ
answers = new_query_cache ℕ 1024 10

abbrev pub servers : AuthServers
servers = record {
  called = 19;
  list =
      record { host = codes "192.0.2.2:53"; rtt = 900; count = 3 }
      ∷ record { host = codes "192.0.2.3:53"; rtt = 200; count = 1 }
      ∷ [];
}

-- a time in nanoseconds
abbrev pub at : ℕ → ℕ
at second = second * 10 ^ 9

abbrev pub signature_record : Rr
signature_record = record a_record {
  rrtype = type_rrsig;
  rdata = Rdata.rrsig type_a 1 (codes "com.") (codes "good");
}

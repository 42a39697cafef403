-- ===== src/Handler/Safety.antt =====
-- What holds of the caches that a query works on.
use sdns.Cache.ErrorCache.Reads
use sdns.Cache.LookupQueue.Safety
use sdns.Cache.NsCache.Reads as NsReads
use sdns.Cache.QueryCache.Reads as QueryReads
use sdns.Handler.Env.{State}

pub record IsSafe {R : Type 0} (s : State R) : Type 0 where
  pub qcache : QueryReads.IsValid s.qcache
  pub ecache : Reads.IsValid s.ecache
  pub ncache : NsReads.IsValid s.ncache
  pub lqueue : Safety.IsValid s.lqueue

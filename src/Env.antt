-- ===== src/Env.antt =====
-- What the program stands on: the libraries, and what it reads from the system.
use as_proxyd.Aerospike.{Aerospike}
use as_proxyd.Boost.{Boost}
use as_proxyd.Common.{List, Option, Bytes}
use as_proxyd.Jansson.{Jansson}

-- The state of the cluster stands for all of the world outside, the clock included.
pub record Env : Type 1 where
  pub boost : Boost
  pub aerospike : Aerospike
  pub jansson : Jansson
  -- `std::random_shuffle` after `srand(time(NULL))`.
  pub shuffle : aerospike.Cluster → List Bytes → List Bytes
  -- `Gzip::gzdecode`.
  pub gunzip : Bytes → Option Bytes
  -- The time that a request took, from the clock.
  pub seconds_since : aerospike.Cluster → jansson.Real

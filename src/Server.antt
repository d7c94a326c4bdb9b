-- ===== src/Server.antt =====
-- web_server/server.c: the data that the master and the worker threads share.
-- The mutex and the condition variables hold no data; Server/Threads.antt models what they do.
-- Numbers that the code counts up from 0 (`head`, `tail`, `size`, the capacity, the counters) are ℕ;
-- a descriptor is signed, since the code stores -1 in one, and so are the parts of a `timeval`.
pub mod Master
pub mod Policies
pub mod Queue
mod Tests
pub mod Threads
pub mod Worker
use operating_system_related.Prelude.{ℕ, List, map}
use operating_system_related.Prelude.Int.{ℤ, pos, negsuc}

pub record Timeval : Type 0 where
  pub tv_sec : ℤ
  pub tv_usec : ℤ

pub record Request : Type 0 where
  pub connfd : ℤ
  pub arrival_time : Timeval
  pub dispatch_interval : Timeval

pub record RequestsQueue : Type 0 where
  pub items : List Request
  pub head : ℕ
  pub tail : ℕ
  pub size : ℕ

pub record RequestsList : Type 0 where
  pub items : List Request
  pub size : ℕ

pub record SharedInfo : Type 0 where
  pub requests_queue : RequestsQueue
  pub requests_list : RequestsList
  pub queue_capacity : ℕ

pub record ThreadInfo : Type 0 where
  pub thread_id : ℕ
  pub requests_count : ℕ
  pub static_requests_count : ℕ
  pub dynamic_requests_count : ℕ

-- web_server/request.h: what `requestHandle` returns, and the statistics that it prints.
pub data RequestResult : Type 0 where
  err501 err404 err403 dynamic static : RequestResult

pub record Statistics : Type 0 where
  pub arrival_time : Timeval
  pub dispatch_interval : Timeval
  pub thread_id : ℕ
  pub requests_count : ℕ
  pub static_requests_count : ℕ
  pub dynamic_requests_count : ℕ

-- What the master holds of a connection; `policy` is a parameter of the loop.
pub record MasterInfo : Type 0 where
  pub connfd : ℤ
  pub accept_time : Timeval

-- `overload_alg_func`: the functions that `getargs` can store in it, by their command-line names.
pub data Policy : Type 0 where
  block dt dh random : Policy

abbrev pub no_time : Timeval
no_time = record { tv_sec = pos 0; tv_usec = pos 0 }

-- What a read outside an array stands for.
abbrev pub no_request : Request
no_request = record { connfd = negsuc 0; arrival_time = no_time; dispatch_interval = no_time }

-- `memory` is what `malloc` returns: `queue_capacity` slots of unknown contents.
unfoldable pub create_request_queue : (memory : List Request) → RequestsQueue
create_request_queue memory = record { items = memory; head = 0; tail = 0; size = 0 }

unfoldable pub create_request_list : (memory : List Request) → RequestsList
create_request_list memory = record { items = memory; size = 0 }

abbrev pub connfds : List Request → List ℤ
connfds = map (λ r. r.connfd)

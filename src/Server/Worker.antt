-- ===== src/Server/Worker.antt =====
-- web_server/server.c: the two critical sections of `workerFunction`, between which the worker
-- handles its request with the mutex released. `now` is what `gettimeofday` stores.
pub mod Interval
pub mod Laws
use operating_system_related.Prelude.{
  ℕ, ◌+◌, ◌-◌, Bool, true, false, List, if◌then◌else◌, get_or, set,
}
use operating_system_related.Prelude.Int.{ℤ, pos, negsuc, ◌+ℤ◌, ◌-ℤ◌, ltb_ℤ}
use operating_system_related.Server.{
  Timeval, Request, RequestsList, SharedInfo, ThreadInfo, Statistics, RequestResult, dynamic,
  static, no_request,
}
use operating_system_related.Server.Queue.{take_head}

-- `dispatch_interval`: the difference of two times, with a borrow from the seconds.
unfoldable pub interval : (from until : Timeval) → Timeval
interval from until =
    let sec = until.tv_sec -ℤ from.tv_sec in
    let usec = until.tv_usec -ℤ from.tv_usec in
    if ltb_ℤ usec (pos 0)
    then record { tv_sec = sec -ℤ pos 1; tv_usec = usec +ℤ pos 1000000 }
    else record { tv_sec = sec; tv_usec = usec }

-- "insert to list": a thread always uses the slot that has its id.
unfoldable pub insert_request : SharedInfo → (thread_id : ℕ) → Request → SharedInfo
insert_request s id r =
    let l = s.requests_list in
    record s { requests_list = record { items = set l.items id r; size = l.size + 1 } }

-- "remove request from list": the slot keeps the request, less its descriptor.
unfoldable pub remove_request : SharedInfo → (thread_id : ℕ) → SharedInfo
remove_request s id =
    let l = s.requests_list in
    let emptied = record (get_or l.items id no_request) { connfd = negsuc 0 } in
    record s { requests_list = record { items = set l.items id emptied; size = l.size - 1 } }

unfoldable pub statistics_stamp : ThreadInfo → Request → Statistics
statistics_stamp t r = record {
  arrival_time = r.arrival_time;
  dispatch_interval = r.dispatch_interval;
  thread_id = t.thread_id;
  requests_count = t.requests_count;
  static_requests_count = t.static_requests_count;
  dynamic_requests_count = t.dynamic_requests_count;
}

-- The section that takes a request, once the queue is not empty.
unfoldable pub begin_request :
    SharedInfo → ThreadInfo → (now : Timeval) → Request × Statistics × SharedInfo
unfolding take_head interval insert_request statistics_stamp
begin_request s t now =
    let (head, s') = take_head s in
    let head_req = record head { dispatch_interval = interval head.arrival_time now } in
    (head_req, statistics_stamp t head_req, insert_request s' t.thread_id head_req)

one_if_static : RequestResult → ℕ
one_if_static static = 1
one_if_static _ = 0

one_if_dynamic : RequestResult → ℕ
one_if_dynamic dynamic = 1
one_if_dynamic _ = 0

-- The section after the request was handled.
unfoldable pub end_request : SharedInfo → ThreadInfo → RequestResult → SharedInfo × ThreadInfo
unfolding remove_request one_if_static one_if_dynamic
end_request s t result = (
  remove_request s t.thread_id,
  record t {
    requests_count = t.requests_count + 1;
    static_requests_count = t.static_requests_count + one_if_static result;
    dynamic_requests_count = t.dynamic_requests_count + one_if_dynamic result;
  },
)

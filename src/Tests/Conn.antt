-- ===== src/Tests/Conn.antt =====
-- A connection that comes back from the pool.
use acached.Prelude.{◌≡◌, refl, []}
use acached.Conn.{Conn, cmd_wait, init, reset}

abbrev used : Conn
used = record {
  c_type = 402;
  c_sock_fd = 9;
  busy = 1;
  concurrent = 1;
  dirty_fd = 7;
  refcount = 3;
  conc_pending = 1;
  aerrnum = 104;
  aerrtype = 102;
  req_count = 12;
  reply_count = 11;
  totalsize = 40;
  empty_q = 1;
  con_watch_sent = 1;
  data_pending_read = 1;
  writingflag = 0;
  windexlast = 6;
  state = cmd_wait;
  req_index = 1;
  req_entries = [];
  reply_index = 8;
}

-- The reset leaves what waits to be read and to be written.
data_pending_kept : (init 402 10 used).data_pending_read ≡ 1
unfolding init reset
data_pending_kept = refl

windexlast_kept : (init 402 10 used).windexlast ≡ 6
unfolding init reset
windexlast_kept = refl

-- ===== src/Tests/Start.antt =====
-- The start on two cores.
use acached.Prelude.{◌+◌, ◌*◌, ◌≡◌, some, arith}
use acached.Global.Start.{Fresh, Area, acache_sga_area}
use acached.Global.Start.Ready.{Ready, acache_sga_area-Ready}

abbrev new : Fresh
new = record {
  threads = 1;
  command_busy = 2;
  msg_pool = 3;
  conn_pool = 4;
  lock_pool = 5;
  message = λ i. 100000 + i;
  connection = λ i. 200000 + i;
  kvdata_q = λ i. 10 + i;
  comm_thread = λ i. 20 + i;
  store_thread = λ i j. 100 * i + 30 + j;
}

acache_sga_area-Ready_example : (a : Area) × (acache_sga_area 2 new ≡ some a) × Ready 2 new a
acache_sga_area-Ready_example = acache_sga_area-Ready 2 new (omega arith)

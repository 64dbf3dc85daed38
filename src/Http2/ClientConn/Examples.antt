-- ===== src/Http2/ClientConn/Examples.antt =====
-- Runs of a client connection, and the theorems about them at concrete inputs.
use req.Base.{ℕ, true, false, none, List, [], ◌∷◌, arith}
use req.Base.Int.{pos}
use req.Http2.Errors.{err_code_no}
use req.Http2.Frame.{Setting, setting_initial_window_size}
use req.Http2.Frame.SettingList.{settings_payload}
use req.Http2.Flow.{init_inflow}
use req.Http2.ClientConn.{Cause, other, ClientStream, ClientConn, GoAway, Config, new_client_conn}
use req.Http2.ClientConn.Runs.{
  Event, reserve, start, want, settings, window_update, run, new_peer, AllPaid, End, panicked,
  blocked, ended,
}
use req.Http2.ClientConn.Paid.{run-AllPaid}
use req.Http2.ClientConn.Afterwards.{Afterwards}
use req.Http2.Frame.Settings.{num_settings, setting}

-- A pipe is a number, which is no matter here.
abbrev close : Cause → ℕ → ℕ
close e b = b

abbrev config : Config
config = record {
  stream_id = 0;
  settings = [];
  connection_flow = 0;
  priority_streams = 3 ∷ [];
  strict = false;
  no_keep_alives = false;
}

abbrev new_stream : ClientStream ℕ
new_stream = record {
  id = 0;
  flow = pos 0;
  inflow = init_inflow (pos 0);
  abort = none;
  has_req_body = true;
  req_body_closed = false;
  is_head = false;
  past_headers = false;
  read_closed = false;
  read_aborted = false;
  buf_pipe = 0;
}

-- A window of 10 bytes that grows by 5.
abbrev small_window : Setting
small_window = record { id = setting_initial_window_size; val = 10 }

abbrev upload : List (Event ℕ)
upload =
    reserve false
    ∷ start false false new_stream
    ∷ settings false (settings_payload (small_window ∷ []))
    ∷ want none 5 100
    ∷ window_update 5 5
    ∷ want none 5 100
    ∷ []

run-AllPaid_example : AllPaid close (other 0) upload (new_client_conn config false) new_peer
unfolding num_settings setting
run-AllPaid_example =
    run-AllPaid close (other 0) config false upload tt (omega arith, tt)
      (tt, (tt, ((λ e. omega arith, tt), (tt, (omega arith, (tt, tt))))))

abbrev last_is_5 : GoAway
last_is_5 = record { last_stream_id = 5; err_code = err_code_no; debug = [] }

abbrev later : List (Event ℕ)
later = reserve false ∷ start false false new_stream ∷ want none 7 100 ∷ []

-- Stream 7 was not processed.
abbrev opening : List (Event ℕ)
opening = reserve false ∷ start false false new_stream ∷ start false false new_stream ∷ []

abbrev reached : End ℕ → ClientConn ℕ
reached panicked = new_client_conn config false
reached (blocked conn) = conn
reached (ended conn) = conn

abbrev two_streams : ClientConn ℕ
two_streams = reached (run close (other 0) opening (new_client_conn config false))

abbrev stream_7 : ClientStream ℕ
stream_7 = record new_stream { id = 7; flow = pos 65535; inflow = init_inflow (pos 4194304) }

-- ===== src/Http2/Framer/Examples.antt =====
-- Runs of the framer, and the theorems about it at concrete inputs.
use req.Base.{
  ℕ, ◌≡◌, refl, true, false, Option, none, some, List, [], ◌∷◌, ◌++◌, length, arith, ◌≤◌,
}
use req.Base.Bytes.{Bytes, codes}
use req.Http2.Errors.{Error}
use req.Http2.Frame.{
  Frame, PriorityParam, Setting, header, data_frame, headers_frame, priority_frame,
  rst_stream_frame, settings_frame, ping_frame, go_away_frame, window_update_frame,
  continuation_frame, is_zero, frame_data, frame_headers, frame_priority, frame_rst_stream,
  frame_settings, frame_ping, frame_go_away, frame_window_update, frame_continuation,
}
use req.Http2.Frame.Settings.{window_too_big, foreach_setting, value, has_duplicates}
use req.Http2.Frame.SettingList.{
  settings_payload, settings_of, first_value, each_until_error, foreach_setting-settings_payload,
  value-settings_payload,
}
use req.Http2.Frame.Duplicates.{Distinct, has_duplicates_iff}
use req.Http2.Framer.{Framer, new_framer, ok, read_frame, read_full}
use req.Http2.Framer.Write.{
  write_data_padded, write_headers, HeadersFrameParam, write_settings, write_continuation,
  write_ping, write_go_away, write_window_update, write_rst_stream, write_priority, all_zeros,
}
use req.Http2.Framer.Wire.{header_of, frame_bytes}
use req.Http2.Framer.Delivery.{Delivers}
use req.Http2.Framer.RoundTrip.{write_data_padded-read_frame}
use req.Http2.Framer.Control.{
  write_ping-read_frame, write_go_away-read_frame, write_window_update-read_frame,
  write_rst_stream-read_frame, write_priority-read_frame,
}
use req.Http2.Framer.SettingsFrames.{write_settings-read_frame}
use req.Http2.Framer.HeaderBlocks.{write_headers-read_frame, write_continuation-read_frame}
use req.Http2.Framer.Validity.{IsValid, read_frame-IsValid}
use req.Http2.Framer.Order.{Contiguous, read_all, read_all-Contiguous}
use req.Base.{◌↔◌, if◌then◌else◌, ◌==◌}
use req.Http2.Errors.{illegal_increment}
use req.Http2.Framer.{
  take_header, read_full, decode_header, read_payload, take_payload, accept, check_frame_order,
}
use req.Http2.Frame.Parse.{type_frame_parser, parse_window_update_frame}

-- A framer whose writer takes everything, over some input.
abbrev conn : Bytes → Framer
conn input = new_framer (λ b. (length b, none)) input

abbrev in_block : ℕ → Framer
in_block sid = record (conn []) { last_header_stream = sid }

-- HEADERS without END_HEADERS on stream 1, a PING in between, then the CONTINUATION.
abbrev broken_block : Bytes
broken_block =
    frame_bytes 1 0 1 (codes "a")
    ++ (frame_bytes 6 0 0 (codes "12345678") ++ frame_bytes 9 4 1 (codes "b"))

read_all-Contiguous_example : Contiguous none (read_all 3 (conn broken_block))
read_all-Contiguous_example = read_all-Contiguous 3 (conn broken_block) refl refl

write_data_padded-read_frame_example :
    Delivers
      (write_data_padded 1 true (codes "hi") (some (0 ∷ 0 ∷ [])) (conn []))
      (conn [])
      (conn [])
      (codes "next")
      (data_frame (header_of frame_data 9 5 1) (codes "hi"))
write_data_padded-read_frame_example =
    write_data_padded-read_frame (conn []) (conn []) (codes "next") refl refl 1 true (codes "hi")
      (some (0 ∷ 0 ∷ [])) (omega arith) (omega arith) (omega arith) (unfold all_zeros in refl)
      (omega arith) (omega arith)

-- A HEADERS frame with a priority and three bytes of padding.
abbrev opening : HeadersFrameParam
opening = record {
  stream_id = 3;
  block_fragment = codes "xyz";
  end_stream = false;
  end_headers = true;
  pad_length = 3;
  priority = record { stream_dep = 1; exclusive = true; weight = 200 };
}

write_headers-read_frame_example :
    Delivers (write_headers opening (conn [])) (conn []) (conn []) [] (
      headers_frame
        (header_of frame_headers 0x2c 12 3)
        (record { stream_dep = 1; exclusive = true; weight = 200 })
        (codes "xyz"))
unfolding is_zero
write_headers-read_frame_example =
    write_headers-read_frame (conn []) (conn []) [] refl refl opening (omega arith) (omega arith)
      (omega arith) (omega arith) (omega arith) (omega arith)

write_continuation-read_frame_example :
    Delivers
      (write_continuation 5 true (codes "rest") (conn []))
      (conn [])
      (in_block 5)
      []
      (continuation_frame (header_of frame_continuation 4 4 5) (codes "rest"))
write_continuation-read_frame_example =
    write_continuation-read_frame (conn []) (in_block 5) [] refl 5 true (codes "rest") refl
      (omega arith) (omega arith) (omega arith) (omega arith)

abbrev two_settings : List Setting
two_settings = record { id = 4; val = 65535 } ∷ record { id = 3; val = 100 } ∷ []

write_settings-read_frame_example :
    Delivers
      (write_settings two_settings (conn []))
      (conn [])
      (conn [])
      []
      (settings_frame (header_of frame_settings 0 12 0) (settings_payload two_settings))
    × (settings_of (settings_payload two_settings) ≡ two_settings)
unfolding window_too_big
write_settings-read_frame_example =
    write_settings-read_frame (conn []) (conn []) [] refl refl two_settings (omega arith) refl
      (omega arith) (omega arith)

write_ping-read_frame_example :
    Delivers
      (write_ping true (codes "12345678") (conn []))
      (conn [])
      (conn [])
      []
      (ping_frame (header_of frame_ping 1 8 0) (codes "12345678"))
write_ping-read_frame_example =
    write_ping-read_frame (conn []) (conn []) [] refl refl true (codes "12345678") refl
      (omega arith)

write_go_away-read_frame_example :
    Delivers
      (write_go_away 7 2 (codes "bye") (conn []))
      (conn [])
      (conn [])
      []
      (go_away_frame (header_of frame_go_away 0 11 0) 7 2 (codes "bye"))
write_go_away-read_frame_example =
    write_go_away-read_frame (conn []) (conn []) [] refl refl 7 2 (codes "bye") (omega arith)
      (omega arith) (omega arith)

write_window_update-read_frame_example :
    Delivers
      (write_window_update 0 4096 (conn []))
      (conn [])
      (conn [])
      []
      (window_update_frame (header_of frame_window_update 0 4 0) 4096)
write_window_update-read_frame_example =
    write_window_update-read_frame (conn []) (conn []) [] refl refl 0 4096 (omega arith)
      (omega arith) (omega arith) (omega arith)

write_rst_stream-read_frame_example :
    Delivers
      (write_rst_stream 9 8 (conn []))
      (conn [])
      (conn [])
      []
      (rst_stream_frame (header_of frame_rst_stream 0 4 9) 8)
write_rst_stream-read_frame_example =
    write_rst_stream-read_frame (conn []) (conn []) [] refl refl 9 8 (omega arith) (omega arith)
      (omega arith) (omega arith)

abbrev exclusive_dep : PriorityParam
exclusive_dep = record { stream_dep = 5; exclusive = true; weight = 15 }

write_priority-read_frame_example :
    Delivers
      (write_priority 7 exclusive_dep (conn []))
      (conn [])
      (conn [])
      []
      (priority_frame (header_of frame_priority 0 5 7) exclusive_dep)
write_priority-read_frame_example =
    write_priority-read_frame (conn []) (conn []) [] refl refl 7 exclusive_dep (omega arith)
      (omega arith) (omega arith) (omega arith) (omega arith)

-- A WINDOW_UPDATE frame of 4096 for the connection, as bytes.
abbrev update_bytes : Bytes
update_bytes = 0 ∷ 0 ∷ 4 ∷ 8 ∷ 0 ∷ 0 ∷ 0 ∷ 0 ∷ 0 ∷ 0 ∷ 0 ∷ 16 ∷ 0 ∷ []

abbrev update_frame : Frame
update_frame = window_update_frame (header_of frame_window_update 0 4 0) 4096

read_update :
    read_frame (conn update_bytes)
    ≡ (ok update_frame, record (conn []) { last_frame = some update_frame })
unfolding read_frame take_header read_full decode_header read_payload take_payload accept
    type_frame_parser parse_window_update_frame check_frame_order header
read_update = refl

read_frame-IsValid_example : IsValid update_frame × (4 ≤ 16777215) × (true ≡ true)
unfolding header
read_frame-IsValid_example =
    read_frame-IsValid (conn update_bytes) (record (conn []) { last_frame = some update_frame })
      update_frame read_update

abbrev same_twice : List Setting
same_twice = record { id = 1; val = 5 } ∷ record { id = 1; val = 6 } ∷ []

abbrev repeated : Bytes
repeated = settings_payload same_twice

value-settings_payload_example : value repeated 1 ≡ first_value 1 same_twice
value-settings_payload_example =
    value-settings_payload same_twice 1
      ((omega arith, omega arith), ((omega arith, omega arith), tt))

has_duplicates_iff_example : (has_duplicates repeated ≡ false) ↔ Distinct (settings_of repeated)
has_duplicates_iff_example = has_duplicates_iff repeated

-- A visitor that collects identifiers and stops at 3.
abbrev visit : Setting → List ℕ → Option Error × List ℕ
visit s seen = if s.id == 3 then (some illegal_increment, seen) else (none, s.id ∷ seen)

foreach_setting-settings_payload_example :
    foreach_setting repeated visit [] ≡ each_until_error visit same_twice []
foreach_setting-settings_payload_example =
    foreach_setting-settings_payload same_twice visit []
      ((omega arith, omega arith), ((omega arith, omega arith), tt))

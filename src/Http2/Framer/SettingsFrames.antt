-- ===== src/Http2/Framer/SettingsFrames.antt =====
-- A SETTINGS frame from the writer to the reader, with the settings that the reader finds in it.
use req.Base.{
  ◌*◌, ◌^◌, ◌≤◌, ◌<◌, ◌≡◌, refl, ap, sym, false, List, [], ◌∷◌, ◌++◌, append_assoc, append-nil,
  length, All, arith, ◌∙◌,
}
use req.Base.Bytes.{Bytes, put_uint32}
use req.Http2.Frame.{
  Setting, FrameHeader, header, has, frame_settings, settings_frame, setting_initial_window_size,
}
use req.Http2.Frame.Settings.{window_too_big}
use req.Http2.Frame.SettingList.{
  IsSetting, settings_payload, settings_of, first_value, length-settings_payload,
  settings_of-settings_payload, value-settings_of,
}
use req.Http2.Frame.Parse.{parsed, parse_settings_frame, type_frame_parser}
use req.Http2.Framer.{Framer}
use req.Http2.Framer.Write.{
  end_write, put_settings, write_settings, write_uint16, write_uint32, start_write,
}
use req.Http2.Framer.Wire.{header_of}
use req.Http2.Framer.Delivery.{Delivers, deliver_closed}
use req.Base.Bytes.{put_uint16}

put_settings-append :
    (ss : List Setting) (fr : Framer)
    → put_settings ss fr ≡ record fr { wbuf = fr.wbuf ++ settings_payload ss }
unfolding put_settings write_uint16 write_uint32
put_settings-append [] fr = ap (λ b. record fr { wbuf = b }) (sym (append-nil fr.wbuf))
put_settings-append (s ∷ ss) fr =
    put_settings-append ss (record fr { wbuf = (fr.wbuf ++ put_uint16 s.id) ++ put_uint32 s.val })
    ∙ ap (λ b. record fr { wbuf = b })
        (append_assoc (fr.wbuf ++ put_uint16 s.id) (put_uint32 s.val) (settings_payload ss)
          ∙ append_assoc fr.wbuf (put_uint16 s.id) (put_uint32 s.val ++ settings_payload ss))

parse_settings_payload :
    (fh : FrameHeader) (ss : List Setting)
    → All IsSetting ss
    → window_too_big (first_value setting_initial_window_size ss) ≡ false
    → fh.flags ≡ 0
    → fh.stream_id ≡ 0
    → parse_settings_frame fh (settings_payload ss)
      ≡ parsed (settings_frame fh (settings_payload ss))
unfolding parse_settings_frame has
parse_settings_payload fh ss v window flags stream = ground (
  arith,
  length-settings_payload ss,
  value-settings_of (settings_payload ss) setting_initial_window_size,
  settings_of-settings_payload ss v,
)

module _ (fr rd : Framer) (rest : Bytes) (strict : rd.allow_illegal_reads ≡ false)
    (closed : rd.last_header_stream ≡ 0) where
  -- WriteSettings, for settings of 16-bit identifiers and 32-bit values whose first initial window
  -- size, if any, is below 2^31, and a payload within 2^24 - 1 and the reader's limit, delivers its
  -- frame. The method returns the writer's answer to one Write, and from those bytes, whatever
  -- follows them, a reader that obeys the protocol and has no open header block returns the
  -- SETTINGS frame in whose payload exactly these settings are found, in order.
  pub write_settings-read_frame :
      (ss : List Setting)
      → All IsSetting ss
      → window_too_big (first_value setting_initial_window_size ss) ≡ false
      → 6 * length ss < 2 ^ 24
      → 6 * length ss ≤ rd.max_read_size
      → Delivers
          (write_settings ss fr)
          fr
          rd
          rest
          (settings_frame (header_of frame_settings 0 (6 * length ss) 0) (settings_payload ss))
        × (settings_of (settings_payload ss) ≡ ss)
  unfolding write_settings type_frame_parser header
  write_settings-read_frame ss v window fits allowed =
      let len = length-settings_payload ss in
      (
        rw (← len) (
            deliver_closed fr rd rest strict closed (write_settings ss fr) (settings_payload ss)
              frame_settings 0 0 _
              (ap end_write (put_settings-append ss (start_write frame_settings 0 0 fr)))
              (omega arith) (omega arith) (omega arith) (omega arith) (omega arith)
              (parse_settings_payload _ ss v window refl refl) (λ e. omega arith)),
        settings_of-settings_payload ss v,
      )

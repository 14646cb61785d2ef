-- ===== src/Examples/Lines.antt =====
-- The theorems on the driver at concrete lines (src/ncn51_driver.rs).
use embassy_knx.Prelude.{none, some, panic}
use embassy_knx.Frame.Extended
use embassy_knx.Prelude.Word.{add8}
use embassy_knx.Driver.Receive.{accept}
use embassy_knx.Driver.Receive.LongFrames.{extended_panics}
use embassy_knx.Prelude.{replicate}
use embassy_knx.Driver.Run.{run}
use embassy_knx.Driver.Run.Drain.{IsAtEnd, line_read_out}
use embassy_knx.Prelude.{◌≢◌, err, ◌≡◌, refl, arith, Bytes, [], ◌∷◌, ◌++◌, ok}
use embassy_knx.Frame.Reader
use embassy_knx.Frame.Dispatch.{standard}
use embassy_knx.Frame.Standard.Build.{IsWellFormed}
use embassy_knx.Driver.Uart.{
  con_not_ok, read_error, read_with_timeout, Driver, byte, silence, fault, con_ok,
}
use embassy_knx.Prelude.Word.{sub8}
use embassy_knx.Frame.Standard
use embassy_knx.Driver.Receive.{
  receive_frame, receive_frame_int, read_part, or_return, is_frame_start,
}
use embassy_knx.Driver.Receive.Reading.{line_of}
use embassy_knx.Driver.Receive.Checks.{IsTelegram}
use embassy_knx.Driver.Receive.Damage.{damaged_refused}
use embassy_knx.Driver.Receive.Sound.{IsPassed, receive_frame-IsPassed}
use embassy_knx.Driver.Receive.RoundTrip.{receive_frame_lem}
use embassy_knx.Driver.Transmit.{send_frame}
use embassy_knx.Driver.Transmit.Writes.{services}
use embassy_knx.Driver.Transmit.Protocol.{send_frame_lem}
use embassy_knx.Driver.Run.BrokenWrites.{broken_write}
use embassy_knx.Driver.Exchange.{sent-received, carried}
use embassy_knx.Driver.Run.{run_step, line_read, frame_waits}
use embassy_knx.Driver.Run.Rounds.{failed_round_dumps, round_ends, PassesTelegram}
use embassy_knx.Examples.{platform, driver_on, rest}

-- The bytes of the read before its checksum, and the read with a free last byte.
abbrev unsealed_front : Bytes
unsealed_front = 0x11 ∷ 0x05 ∷ 0x09 ∷ 0x62 ∷ 0xe1 ∷ 0 ∷ 0 ∷ []

abbrev unsealed : Bytes
unsealed = 0xbc ∷ unsealed_front ++ 0 ∷ []

the_sum : Reader.checksum unsealed ≡ 0xdd
unfolding Reader.checksum
the_sum = refl

read-IsTelegram : IsTelegram (0xbc ∷ rest)
unfolding Reader.checksum
read-IsTelegram = record { well_formed = omega arith; sealed = refl }

unsealed-IsWellFormed : IsWellFormed unsealed
unsealed-IsWellFormed = omega arith

receive_frame-IsPassed_example :
    IsPassed
      (receive_frame platform 0xbc (driver_on (byte 0x11 ∷ silence ∷ byte 5 ∷ fault 3 ∷ []))).0
receive_frame-IsPassed_example =
    receive_frame-IsPassed platform 0xbc (driver_on (byte 0x11 ∷ silence ∷ byte 5 ∷ fault 3 ∷ []))
      (omega arith) refl (omega arith, (tt, (omega arith, (tt, tt))))

receive_frame_lem_example :
    receive_frame platform 0xbc (driver_on (line_of rest (silence ∷ byte 7 ∷ []))) ≡ (
      ok (standard (0xbc ∷ rest)),
      record (driver_on (byte 7 ∷ [])) { pool = []; written = 0x11 ∷ [] },
    )
receive_frame_lem_example =
    receive_frame_lem platform 0xbc rest (driver_on (line_of rest (silence ∷ byte 7 ∷ [])))
      read-IsTelegram refl refl refl refl

round_ends_example :
    let run =
      run_step platform line_read (driver_on (byte 0xbc ∷ byte 0x11 ∷ fault 3 ∷ silence ∷ [])) in
    (run.0 ≡ ok tt) × PassesTelegram [] run.1.passed
round_ends_example =
    round_ends platform 0xbc (driver_on (byte 0xbc ∷ byte 0x11 ∷ fault 3 ∷ silence ∷ [])) refl
      (omega arith) refl (omega arith, (tt, (tt, tt)))

send_frame_lem_example :
    send_frame platform (standard unsealed) (driver_on (line_of (0xbc ∷ rest) (byte 0x8b ∷ []))) ≡ (
      ok con_ok,
      record (driver_on []) {
        written = services 0 (0xbc ∷ unsealed_front ++ Reader.checksum unsealed ∷ []);
      },
    )
send_frame_lem_example =
    send_frame_lem platform 0xbc unsealed_front (0xbc ∷ rest) 0 0x8b
      (driver_on (line_of (0xbc ∷ rest) (byte 0x8b ∷ []))) (omega arith) refl (omega arith) refl
      refl

abbrev sender : Driver
sender = driver_on (line_of (0xbc ∷ rest) (byte 0x8b ∷ []))

sent_bytes : carried (send_frame platform (standard unsealed) sender).1.written ≡ 0xbc ∷ rest
unfolding Reader.checksum
sent_bytes = rw (
    send_frame_lem platform 0xbc unsealed_front (0xbc ∷ rest) 0 0x8b sender (omega arith) refl
      (omega arith) refl refl)

sent-received_example : receive_frame platform 0xbc (driver_on (line_of rest (silence ∷ []))) ≡ (
  ok (standard (0xbc ∷ unsealed_front ++ Reader.checksum unsealed ∷ [])),
  record (driver_on []) { pool = []; written = 0x11 ∷ [] },
)
sent-received_example =
    sent-received platform platform 0xbc unsealed_front (0xbc ∷ rest) rest 0x8b sender
      (driver_on (line_of rest (silence ∷ []))) [] unsealed-IsWellFormed refl refl (omega arith)
      refl refl refl sent_bytes refl refl refl

fault_fails :
    receive_frame platform 0xbc
      (driver_on (fault 3 ∷ byte 7 ∷ fault 4 ∷ byte 8 ∷ silence ∷ byte 9 ∷ []))
    ≡ (
      err (read_error 3),
      record (driver_on (byte 7 ∷ fault 4 ∷ byte 8 ∷ silence ∷ byte 9 ∷ [])) { pool = [] },
    )
unfolding receive_frame receive_frame_int Standard.new Standard.set_length sub8 read_part or_return
    read_with_timeout
fault_fails = refl

failed_round_dumps_example :
    (run_step platform line_read
        (driver_on (byte 0xbc ∷ fault 3 ∷ byte 7 ∷ fault 4 ∷ byte 8 ∷ silence ∷ byte 9 ∷ []))
      ≡ (ok tt, record (driver_on (byte 9 ∷ [])) { pool = [] }))
    × ([] ≡ (driver_on []).passed)
unfolding is_frame_start
failed_round_dumps_example =
    failed_round_dumps platform 0xbc
      (driver_on (byte 0xbc ∷ fault 3 ∷ byte 7 ∷ fault 4 ∷ byte 8 ∷ silence ∷ byte 9 ∷ []))
      (byte 7 ∷ fault 4 ∷ byte 8 ∷ []) refl refl fault_fails (tt, (tt, (tt, tt))) refl

damaged_refused_example :
    (receive_frame platform 0xbc (driver_on (line_of rest (silence ∷ [])))).0
    ≢ ok (standard ((0xbc ∷ 0x11 ∷ []) ++ 6 ∷ 0x09 ∷ 0x62 ∷ 0xe1 ∷ 0 ∷ 0 ∷ 0xdd ∷ []))
damaged_refused_example =
    damaged_refused platform 0xbc (driver_on (line_of rest (silence ∷ []))) (0xbc ∷ 0x11 ∷ [])
      (0x09 ∷ 0x62 ∷ 0xe1 ∷ 0 ∷ 0 ∷ 0xdd ∷ []) 5 6 (omega arith) refl (omega arith) read-IsTelegram
      (omega arith)

line_read_out_example :
    IsAtEnd
      (run platform (replicate 11 line_read) (driver_on (fault 3 ∷ line_of rest (silence ∷ []))))
line_read_out_example =
    line_read_out platform 10 (driver_on (fault 3 ∷ line_of rest (silence ∷ []))) (omega arith)

-- An extended frame of nine bytes in its buffer.
abbrev extended_frame : Bytes
extended_frame = 0x3c ∷ 0xe0 ∷ 0x11 ∷ 0x05 ∷ 0x09 ∷ 0 ∷ 0 ∷ 0 ∷ 0x3e ∷ replicate 254 0

extended_panics_example :
    accept (Extended.writer platform) 9 extended_frame (driver_on []) ≡ (panic, driver_on [])
unfolding Extended.length add8 Reader.checksum
extended_panics_example =
    extended_panics platform refl 9 extended_frame (driver_on []) refl (omega arith) (omega arith)
      refl refl

-- The third write fails.
abbrev failing : Driver
failing = record sender { tx = none ∷ none ∷ some 5 ∷ [] }

broken_write_example : run_step platform (frame_waits (standard unsealed)) failing ≡ (
  ok tt,
  record failing { tx = []; written = 0x80 ∷ 0xbc ∷ 0x81 ∷ []; confirmed = con_not_ok ∷ [] },
)
broken_write_example =
    broken_write platform 0xbc unsealed_front 0 2 5 failing (omega arith) (omega arith) refl

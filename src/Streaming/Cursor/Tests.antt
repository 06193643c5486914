-- ===== src/Streaming/Cursor/Tests.antt =====
-- Runs of the model of src/streaming/stream-cursor.ts at concrete inputs.
use boilerplate_nestjs_api.Prelude.{◌≡◌, refl, some, none, utf16, Utf16, every, arith}
use boilerplate_nestjs_api.Streaming.Cursor.{format_cursor, parse_cursor, is_seq, number}
use boilerplate_nestjs_api.Streaming.Cursor.Digits.{tens}
use boilerplate_nestjs_api.Streaming.Cursor.RoundTrip.{parse_cursor-format_cursor}

abbrev an_epoch : Utf16
unfolding utf16
an_epoch = utf16 "0123456789abcdef0123456789abcdef"

parse_cursor-format_cursor_example :
    parse_cursor (some (format_cursor an_epoch 1205))
    ≡ some (record { epoch = an_epoch; seq = 1205 })
unfolding utf16 every tens
parse_cursor-format_cursor_example =
    parse_cursor-format_cursor an_epoch 1205 refl refl (omega arith)

-- A position with a leading zero is no position.
leading_zero : parse_cursor (some (utf16 "0123456789abcdef0123456789abcdef.07")) ≡ none
unfolding utf16 every parse_cursor is_seq number
leading_zero = refl

-- ===== src/Streaming/Hub.antt =====
-- src/streaming/event-stream.service.ts: numbering the events of this process, and deciding what a
-- reconnecting client is caught up from. The frames, the timers and the subscriptions are not here.
pub mod CatchUp
mod Tests
use boilerplate_nestjs_api.Prelude.{
  ℕ, zero, suc, ◌+◌, ◌-◌, Bool, true, false, ◌&&◌, List, [], ◌∷◌, Option, none, some, ltb, ◌==◌,
  length, Utf16, same_text, if◌then◌else◌,
}
use boilerplate_nestjs_api.Streaming.ReplayBuffer.{
  Sequenced, ReplayBuffer, append, oldest_seq, since,
}
use boilerplate_nestjs_api.Streaming.Cursor.{StreamCursor, trim, parse_cursor}

pub record EventStreamHub (E : Type 0) : Type 0 where
  pub epoch : Utf16
  pub buffer : ReplayBuffer E
  pub seq : ℕ

pub data ResumeGap : Type 0 where
  no_cursor malformed_cursor epoch_changed cursor_ahead buffer_evicted : ResumeGap

pub record Resume (E : Type 0) : Type 0 where
  pub from : ℕ
  pub backlog : List (Sequenced E)
  pub gap : Option ResumeGap

abbrev pub evicted : ℕ → Option ℕ → Bool
evicted seq none = false
evicted seq (some oldest) = ltb (seq + 1) oldest

abbrev pub is_blank : Utf16 → Bool
is_blank [] = true
is_blank (c ∷ s) = false

module _ {E : Type 0} where
  pub new_hub : Utf16 → ReplayBuffer E → EventStreamHub E
  new_hub epoch buffer = record { epoch = epoch; buffer = buffer; seq = 0 }

  pub record_event : E → EventStreamHub E → EventStreamHub E
  record_event event hub = record hub {
    seq = hub.seq + 1;
    buffer = append (record { seq = hub.seq + 1; event = event }) hub.buffer;
  }

  pub record_all : List E → EventStreamHub E → EventStreamHub E
  record_all [] hub = hub
  record_all (event ∷ events) hub = record_all events (record_event event hub)

  abbrev pub live : EventStreamHub E → ResumeGap → Resume E
  live hub gap = record { from = hub.seq; backlog = []; gap = some gap }

  -- From a cursor that was read: `oldest - 1` is the first position that can be served in full.
  pub resume_from : StreamCursor → EventStreamHub E → Resume E
  unfolding same_text
  resume_from cursor hub =
      if same_text cursor.epoch hub.epoch
      then if ltb hub.seq cursor.seq
        then live hub cursor_ahead
        else if evicted cursor.seq (oldest_seq hub.buffer)
        then live hub buffer_evicted
        else record { from = cursor.seq; backlog = since cursor.seq hub.buffer; gap = none }
      else live hub epoch_changed

  pub resolve_resume : Option Utf16 → EventStreamHub E → Resume E
  unfolding resume_from
  resolve_resume none hub = live hub no_cursor
  resolve_resume (some last_event_id) hub =
      if is_blank (trim last_event_id)
      then live hub no_cursor
      else elim (parse_cursor (some last_event_id)) [
        | none ↦ live hub malformed_cursor
        | some cursor ↦ resume_from cursor hub
      ]

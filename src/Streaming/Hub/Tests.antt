-- ===== src/Streaming/Hub/Tests.antt =====
-- Four events through a window of two.
use boilerplate_nestjs_api.Prelude.{same_text, ℕ, ◌≡◌, refl, List, [], ◌∷◌, none, replicate}
use boilerplate_nestjs_api.Streaming.ReplayBuffer.{ReplayBuffer, new}
use boilerplate_nestjs_api.Streaming.Cursor.{StreamCursor}
use boilerplate_nestjs_api.Streaming.Hub.{new_hub, record_all, resume_from}
use boilerplate_nestjs_api.Streaming.Hub.CatchUp.{numbered, resume_from-record_all}

abbrev window : ReplayBuffer ℕ
window = record { capacity = 2; slots = replicate 2 none; appended = 0 }

abbrev events : List ℕ
events = 10 ∷ 20 ∷ 30 ∷ 40 ∷ []

abbrev cursor : StreamCursor
cursor = record { epoch = 1 ∷ []; seq = 2 }

resume_from-record_all_example :
    resume_from cursor (record_all events (new_hub (1 ∷ []) window))
    ≡ record { from = 2; backlog = numbered 2 (30 ∷ 40 ∷ []); gap = none }
unfolding new same_text
resume_from-record_all_example = resume_from-record_all 2 window (1 ∷ []) events cursor refl refl

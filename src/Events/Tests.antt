-- ===== src/Events/Tests.antt =====
-- Three events of an emitter.
use openmirai.Prelude.{ℕ, ◌≡◌, arith, none, some, List, [], ◌∷◌, ◌++◌}
use openmirai.Events.{session_started, block_started, session_completed, new_emitter}
use openmirai.Events.Numbering.{Emission, send_all, sent_ids, consecutive, sent_ids-send_all}

abbrev requests : List (Emission ℕ)
requests =
    Emission.event session_started "s" none []
    ∷ Emission.event block_started "s" (some "n") []
    ∷ Emission.event session_completed "s" none []
    ∷ []

sent_ids-send_all_example :
    sent_ids (send_all requests new_emitter) ≡ sent_ids {N = ℕ} new_emitter ++ consecutive 0 3
sent_ids-send_all_example = sent_ids-send_all requests new_emitter (omega arith)

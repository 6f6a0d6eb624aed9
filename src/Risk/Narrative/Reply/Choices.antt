-- ===== src/Risk/Narrative/Reply/Choices.antt =====
-- An answer with no choices.
use event_driven_trading_led.Base.{String, ◌≡◌, some}
use event_driven_trading_led.Base.Exec.{ok, err, index_error}
use event_driven_trading_led.Risk.Json.{Value, arr, nil}
use event_driven_trading_led.Risk.Narrative.Reply.{Runtime, item, first_of, first_item, document_of}

pub document_no_choices :
    {F : Type 0} (rt : Runtime F) (raw : String) (body : Value F)
    → rt.loads raw ≡ some body
    → item "choices" body ≡ ok (arr nil)
    → document_of rt raw ≡ err index_error
unfolding document_of first_of first_item
document_no_choices rt raw body parsed empty = rw (parsed, empty)

-- ===== src/Market/History.antt =====
-- Histories of commands.
use sosedi_app.Prelude.{List, String, [], refl, ◌∷◌}
use sosedi_app.Booking.Change.{Keeps, Keeps-same, Keeps-trans}
use sosedi_app.Booking.Exclusive.{IsExclusive}
use sosedi_app.Market.{Command, World, run, step}
use sosedi_app.Market.Calendar.{step-Holds}
use sosedi_app.Market.Payouts.{step-IsBalanced}
use sosedi_app.Payments.Balance.{IsBalanced}

-- After any history of commands, the calendar is exclusive if it was before: no two bookings have
-- one identifier, no two bookings that hold their days overlap on one item, and none of them
-- overlaps a period that the owner of the item has closed. This holds whatever the provider
-- answers, and whatever is written into the items, blocks, uploads, messages and the outbox besides.
pub run-IsExclusive :
    (digest : String → String) (w : World) (cs : List Command)
    → IsExclusive w.db
    → IsExclusive (run digest w cs).db
unfolding run step
run-IsExclusive digest w [] v = v
run-IsExclusive digest w (c ∷ cs) v =
    run-IsExclusive digest (step digest w c) cs (step-Holds digest w c v).exclusive

-- After any history of commands that starts with an exclusive calendar, every booking that was
-- found by its identifier is found by it still, with the same item, parties, days, amount and
-- terms, and its status is one that transitions of the workflow contract lead to.
pub run-Keeps :
    (digest : String → String) (w : World) (cs : List Command)
    → IsExclusive w.db
    → Keeps w.db (run digest w cs).db
unfolding run step
run-Keeps digest w [] v = Keeps-same w.db w.db refl
run-Keeps digest w (c ∷ cs) v =
    let h = step-Holds digest w c v in
    Keeps-trans w.db (step digest w c).db (run digest w (c ∷ cs)).db h.keeps
      (run-Keeps digest (step digest w c) cs h.exclusive)

-- After any history of commands, the deposits are balanced if they were before: no two have one
-- identifier, what was refunded to the borrower and released to the lender is at most the deposit,
-- and it is the whole deposit once the deposit is RESOLVED. This holds whatever the provider
-- answers, and whenever it answers.
pub run-IsBalanced :
    (digest : String → String) (w : World) (cs : List Command)
    → IsBalanced w.db
    → IsBalanced (run digest w cs).db
unfolding run step
run-IsBalanced digest w [] v = v
run-IsBalanced digest w (c ∷ cs) v =
    run-IsBalanced digest (step digest w c) cs (step-IsBalanced digest w c v)

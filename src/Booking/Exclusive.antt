-- ===== src/Booking/Exclusive.antt =====
-- The calendar of an item, for the commands of backend/src/booking: who holds which days.
pub mod Rows
pub mod Confirmed
pub mod Steps
use sosedi_app.Prelude.{All, List, Pairwise, false, true, ◌≡◌, ◌≢◌}
use sosedi_app.Domain.{Booking, Db, UnavailablePeriod, overlaps}
use sosedi_app.Domain.Status.{is_reserved}

-- Two bookings are different, and if they hold days of one item, the days differ.
pub record Apart (x y : Booking) : Type 0 where
  pub different : x.id ≢ y.id
  pub disjoint :
      x.item_id ≡ y.item_id
      → is_reserved x.status ≡ true
      → is_reserved y.status ≡ true
      → overlaps x.start_date x.end_date y.start_date y.end_date ≡ false

-- A booking that holds its days holds none of a period that the owner closed.
abbrev pub ClearOf : Booking → UnavailablePeriod → Type 0
ClearOf b p =
    p.item_id ≡ b.item_id
    → is_reserved b.status ≡ true
    → overlaps b.start_date b.end_date p.start_date p.end_date ≡ false

abbrev pub Clear : List UnavailablePeriod → Booking → Type 0
Clear periods b = All (ClearOf b) periods

pub record IsExclusive (db : Db) : Type 0 where
  pub apart : Pairwise Apart db.bookings
  pub clear : All (Clear db.unavailable_periods) db.bookings

-- A row after a change that reserves nothing new.
pub record Tame (b b' : Booking) : Type 0 where
  pub same_id : b'.id ≡ b.id
  pub same_item : b'.item_id ≡ b.item_id
  pub same_start : b'.start_date ≡ b.start_date
  pub same_end : b'.end_date ≡ b.end_date
  pub reserved : is_reserved b'.status ≡ true → is_reserved b.status ≡ true

-- ===== src/Sdr/Power.antt =====
-- pi/sdr_controller.py: `power`, from the rows that rtl_power prints to the peak and the mean. Frequencies are in
-- hundredths of a hertz and levels in hundredths of a decibel; what Python's `float` reads in a column is a
-- parameter, and so are the columns, split and stripped.
pub mod Peak
use embedded_ai_harness.Prelude.{
  ℕ, suc, ◌+◌, ◌-◌, ◌*◌, ◌/◌, String, Bool, true, false, not, ◌&&◌, Option, none, some, List, [],
  ◌∷◌, if◌then◌else◌, ltb, leb, ◌==◌, length, drop,
}
use embedded_ai_harness.Prelude.Int.{ℤ, pos, ltb_ℤ, add_ℤ}

-- `float` of a column: a frequency or a step, which rtl_power prints without a sign, and a level.
pub record Floats : Type 0 where
  pub hertz : String → Option ℕ
  pub decibel : String → Option ℤ

pub record Bin : Type 0 where
  pub freq : ℕ
  pub db : ℤ

pub record Levels : Type 0 where
  -- `dbs`, with the frequencies of their bins, the latest first
  pub bins : List Bin
  pub peak : Option Bin

abbrev distance : ℕ → ℕ → ℕ
distance a b = (a - b) + (b - a)

-- `notch_hz and abs(bin_freq - freq_hz) <= notch_hz`, in hertz but for the bin.
pub is_notched : ℕ → ℕ → ℕ → Bool
is_notched freq_hz notch_hz bin =
    not (notch_hz == 0) && leb (distance bin (100 * freq_hz)) (100 * notch_hz)

pub raise_peak : Bin → Option Bin → Option Bin
raise_peak b none = some b
raise_peak b (some top) = if ltb_ℤ top.db b.db then some b else some top

pub add_bin : Bin → Levels → Levels
unfolding raise_peak
add_bin b l = record { bins = b ∷ l.bins; peak = raise_peak b l.peak }

-- A column of a row, if it is a number and not in the notch.
pub bin_of : Option ℤ → Bool → ℕ → Levels → Levels
unfolding add_bin
bin_of none notched f l = l
bin_of (some db) true f l = l
bin_of (some db) false f l = add_bin (record { freq = f; db = db }) l

-- The columns of a row from the i-th on, whose frequency is `f`.
pub scan_columns : Floats → ℕ → ℕ → ℕ → ℕ → List String → Levels → Levels
unfolding bin_of is_notched
scan_columns fl freq_hz notch_hz f step [] l = l
scan_columns fl freq_hz notch_hz f step (v ∷ vs) l =
    scan_columns fl freq_hz notch_hz (f + step) step vs
      (bin_of (fl.decibel v) (is_notched freq_hz notch_hz f) f l)

pub columns_of : Floats → ℕ → ℕ → Option ℕ → Option ℕ → List String → Levels → Levels
unfolding scan_columns
columns_of fl freq_hz notch_hz none step vs l = l
columns_of fl freq_hz notch_hz (some low) none vs l = l
columns_of fl freq_hz notch_hz (some low) (some step) vs l =
    scan_columns fl freq_hz notch_hz low step vs l

-- The third and the fifth column are the lowest frequency and the step, those from the seventh on levels.
pub scan_row : Floats → ℕ → ℕ → List String → Levels → Levels
unfolding columns_of
scan_row fl freq_hz notch_hz (a ∷ b ∷ low ∷ c ∷ step ∷ d ∷ v ∷ vs) l =
    columns_of fl freq_hz notch_hz (fl.hertz low) (fl.hertz step) (v ∷ vs) l
scan_row fl freq_hz notch_hz parts l = l

pub scan_rows : Floats → ℕ → ℕ → List (List String) → Levels → Levels
unfolding scan_row
scan_rows fl freq_hz notch_hz [] l = l
scan_rows fl freq_hz notch_hz (r ∷ rs) l =
    scan_rows fl freq_hz notch_hz rs (scan_row fl freq_hz notch_hz r l)

-- The sum of the levels, whose quotient by their number is the mean.
pub total : List Bin → ℤ
total [] = pos 0
total (b ∷ bs) = add_ℤ (total bs) b.db

pub record Report : Type 0 where
  pub peak_db : Option ℤ
  pub peak_freq_hz : Option ℕ
  pub sum_db : ℤ
  pub bins : ℕ

level_of : Option Bin → Option ℤ
level_of none = none
level_of (some b) = some b.db

freq_of : Option Bin → Option ℕ
freq_of none = none
freq_of (some b) = some (b.freq / 100)

abbrev pub nothing : Levels
nothing = record { bins = []; peak = none }

-- `power`, from its lines on.
pub power : Floats → ℕ → ℕ → List (List String) → Report
unfolding scan_rows total level_of freq_of
power fl freq_hz notch_hz rows =
    let l = scan_rows fl freq_hz notch_hz rows nothing in
    record {
      peak_db = level_of l.peak;
      peak_freq_hz = freq_of l.peak;
      sum_db = total l.bins;
      bins = length l.bins;
    }

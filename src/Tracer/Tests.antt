-- ===== src/Tracer/Tests.antt =====
-- A trace file of at most 40 bytes, and the dump of a LED pulse request.
use clibdpa.Base.{ℕ, ◌≡◌, refl, Bool, true, List, [], ◌∷◌, some, arith}
use clibdpa.Base.Int.{pos}
use clibdpa.ErrorCode.{codes}
use clibdpa.Tracer.SourceName.{find_last}
use clibdpa.Tracer.Line.{Place, trc_msg}
use clibdpa.Tracer.File.{debug, warning, new, file_header, write, start}
use clibdpa.Tracer.Bounded.{IsBounded, starts, writes, run, run-IsBounded}
use clibdpa.Tracer.Dump.{mem_hex}
use clibdpa.Tracer.CharDump.{mem_hex_char}
use clibdpa.Tracer.CharTable.{table, IsTable, concat}
use clibdpa.Tracer.CharLines.{mem_hex_char-table}
use clibdpa.Tracer.Reading.{read_dump, mem_hex-read_dump}

abbrev all_open : List ℕ → Bool
all_open fname = true

-- The second message goes beyond the limit: the file starts again, without it.
second_resets :
    (write all_open
      (write all_open (start all_open new (codes "dpa.log") warning (pos 40)) (codes "sent"))
      (codes "received from coordinator ")).m_ofstream
    ≡ some (codes "file: 1 opened/reset\n")
unfolding new start write file_header
second_resets = refl

run-IsBounded_example :
    IsBounded
      (run all_open new (starts (codes "dpa.log") warning (pos 40) ∷ writes (codes "sent") ∷ []))
run-IsBounded_example =
    run-IsBounded all_open (starts (codes "dpa.log") warning (pos 40) ∷ writes (codes "sent") ∷ [])

pulse_dump : mem_hex 6 (1 ∷ 0 ∷ 6 ∷ 3 ∷ 255 ∷ 255 ∷ []) 6 b'.' ≡ some (codes "01.00.06.03.ff.ff")
unfolding mem_hex
pulse_dump = refl

mem_hex-read_dump_example :
    (text : List ℕ) × (mem_hex 6 (1 ∷ 0 ∷ 6 ∷ 3 ∷ 255 ∷ 255 ∷ []) 6 b'.' ≡ some text)
    × (read_dump text ≡ 1 ∷ 0 ∷ 6 ∷ 3 ∷ 255 ∷ 255 ∷ [])
mem_hex-read_dump_example = mem_hex-read_dump 1 (0 ∷ 6 ∷ 3 ∷ 255 ∷ 255 ∷ []) b'.' (omega arith)

abbrev from_10 : List ℕ
from_10 =
    16 ∷ 17 ∷ 18 ∷ 19 ∷ 20 ∷ 21 ∷ 22 ∷ 23 ∷ 24 ∷ 25 ∷ 26 ∷ 27 ∷ 28 ∷ 29 ∷ 30 ∷ 31 ∷ 65 ∷ 32 ∷ []

-- Two rows: the characters of the first one do not show in the second.
two_rows :
    mem_hex_char 18 from_10 18 b' '
    ≡ some (
        codes
          "10 11 12 13 14 15 16 17 18 19 1a 1b 1c 1d 1e 1f   ................\n41 20                                             A.              ")
unfolding mem_hex_char
two_rows = refl

mem_hex_char-table_example :
    (rs : List (List ℕ)) × IsTable rs
    × (concat rs ≡ from_10)
    × (mem_hex_char 18 from_10 18 b' ' ≡ some (table b' ' rs))
mem_hex_char-table_example =
    mem_hex_char-table 16
      (17 ∷ 18 ∷ 19 ∷ 20 ∷ 21 ∷ 22 ∷ 23 ∷ 24 ∷ 25 ∷ 26 ∷ 27 ∷ 28 ∷ 29 ∷ 30 ∷ 31 ∷ 65 ∷ 32 ∷ []) b' '

abbrev from_handler : Place
from_handler = record {
  module_name = [];
  source_file = codes "/home/src/Dpa/DpaHandler2.cpp";
  source_line = 132;
  func_name = codes "executeDpaTransaction";
}

-- The microseconds have no leading zeros: 42 of them look like 420 ms.
short_fraction :
    (trc_msg all_open
      (start all_open new [] debug (pos 40))
      (codes "01-02-2017 03:04:05")
      42
      warning
      (pos 0)
      from_handler
      (codes "Empty request")).console
    ≡ codes
        "01-02-2017 03:04:05.42 {WAR} 0  DpaHandler2.cpp:132 executeDpaTransaction() \nEmpty request\n"
unfolding new start trc_msg find_last
short_fraction = refl

debug_is_off :
    (trc_msg all_open
      (start all_open new [] warning (pos 40))
      (codes "01-02-2017 03:04:05")
      42
      debug
      (pos 0)
      from_handler
      (codes "Success write")).console
    ≡ []
unfolding new start trc_msg find_last
debug_is_off = refl

-- ===== src/Tracer/File.antt =====
-- The tracer's members and its operations. `m_ofstream` is the content of the open file, `console` what
-- std::cout was given, and `count` the static counter of openFile().
use clibdpa.Base.{
  ℕ, zero, suc, ◌+◌, ◌/◌, ◌%◌, Bool, true, false, List, [], ◌∷◌, ◌++◌, Option, none, some, ltb, leb,
  ◌==◌, if◌then◌else◌, length,
}
use clibdpa.Base.Int.{ℤ, pos, negsuc, ltb_ℤ}
use clibdpa.ErrorCode.{codes}

-- enum TrcLevel, with the order of its enumerators.
pub data TrcLevel : Type 0 where
  error warning information debug : TrcLevel

abbrev pub rank : TrcLevel → ℕ
rank error = 0
rank warning = 1
rank information = 2
rank debug = 3

pub record IqrfTracer : Type 0 where
  pub m_fname : List ℕ
  pub m_ofstream : Option (List ℕ)
  pub m_cout : Bool
  pub m_started : Bool
  pub m_max_size : ℤ
  pub m_level : TrcLevel
  pub count : ℕ
  pub console : List ℕ

-- IqrfTracer()
unfoldable pub new : IqrfTracer
new = record {
  m_fname = [];
  m_ofstream = none;
  m_cout = false;
  m_started = false;
  m_max_size = negsuc 0;
  m_level = debug;
  count = 0;
  console = [];
}

-- isOn(level)
unfoldable pub is_on : IqrfTracer → TrcLevel → Bool
is_on t level = leb (rank level) (rank t.m_level)

-- levelToChar(level)
unfoldable pub level_to_char : TrcLevel → List ℕ
level_to_char error = codes "{ERR}"
level_to_char warning = codes "{WAR}"
level_to_char information = codes "{INF}"
level_to_char debug = codes "{DBG}"

-- `os << n`, of at most `fuel` digits; an unsigned int has 10.
unfoldable pub decimal : ℕ → ℕ → List ℕ
decimal zero n = []
decimal (suc fuel) n =
    let rest = decimal fuel (n / 10) in
    if ltb n 10 then (b'0' + n) ∷ [] else rest ++ (b'0' + n % 10) ∷ []

-- The first line of a file.
unfoldable pub file_header : ℕ → List ℕ
unfolding decimal
file_header n = codes "file: " ++ decimal 10 n ++ codes " opened/reset\n"

-- closeFile()
unfoldable pub close_file : IqrfTracer → IqrfTracer
close_file t = record t { m_ofstream = none }

-- `opens` tells which files the system can open.
module _ (opens : List ℕ → Bool) where
  -- openFile(): the file is truncated, and the counter grows although the file cannot be opened.
  unfoldable pub open_file : IqrfTracer → IqrfTracer
  open_file t = elim t.m_ofstream [
    | some content ↦ t
    | none ↦ record t {
      m_ofstream = if opens t.m_fname then some (file_header t.count) else none;
      count = (t.count + 1) % 4294967296;
    }
  ]

  -- resetFile()
  unfoldable pub reset_file : IqrfTracer → IqrfTracer
  unfolding open_file close_file
  reset_file t = open_file (close_file t)

  -- write(msg)
  unfoldable pub write : IqrfTracer → List ℕ → IqrfTracer
  unfolding reset_file
  write t msg =
      if t.m_started
      then (if t.m_cout then record t { console = t.console ++ msg } else elim t.m_ofstream [
        | none ↦ t
        | some content ↦
            let written = record t { m_ofstream = some (content ++ msg) } in
            if ltb_ℤ t.m_max_size (pos (length (content ++ msg)))
            then reset_file written
            else written
      ])
      else t

  -- start(fname, level, maxSize)
  unfoldable pub start : IqrfTracer → List ℕ → TrcLevel → ℤ → IqrfTracer
  unfolding open_file close_file
  start t fname level max_size =
      let closed = record (close_file t) {
        m_fname = fname;
        m_cout = length fname == 0;
        m_max_size = max_size;
        m_level = level;
      } in
      record (if length fname == 0 then closed else open_file closed) { m_started = true }

-- stop()
unfoldable pub stop : IqrfTracer → IqrfTracer
unfolding close_file
stop t = record (close_file t) { m_started = false }

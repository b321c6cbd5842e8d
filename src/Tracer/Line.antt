-- ===== src/Tracer/Line.antt =====
-- tracerMessage() and the macro TRC_MSG: the text of a traced message.
use clibdpa.Base.{ℕ, suc, ◌-◌, Bool, List, [], ◌∷◌, ◌++◌, if◌then◌else◌, length, replicate}
use clibdpa.Base.Int.{ℤ, pos, negsuc}
use clibdpa.ErrorCode.{codes}
use clibdpa.Tracer.File.{TrcLevel, IqrfTracer, is_on, level_to_char, decimal, write}
use clibdpa.Tracer.SourceName.{without_path}

-- Where a message comes from: the module name of the macro, and __FILE__, __LINE__ and __FUNCTION__.
pub record Place : Type 0 where
  pub module_name : List ℕ
  pub source_file : List ℕ
  pub source_line : ℕ
  pub func_name : List ℕ

-- `os << text` behind `std::setw(n)`, with a fill character.
abbrev pub padded : ℕ → ℕ → List ℕ → List ℕ
padded n fill text = replicate (n - length text) fill ++ text

-- `os << n`, of an int.
unfoldable pub int_text : ℤ → List ℕ
unfolding decimal
int_text (pos n) = decimal 10 n
int_text (negsuc n) = b'-' ∷ decimal 10 (suc n)

-- The text of a message. `time` is what strftime made of the clock, and `us` the microseconds. The width
-- of 6 is that of the next output, which is the time.
unfoldable pub message_text : List ℕ → ℕ → TrcLevel → ℤ → Place → List ℕ → List ℕ
unfolding decimal int_text level_to_char without_path
message_text time us level channel place msg =
    padded 6 b'0' time
    ++ (b'.'
        ∷ (decimal 10 us
            ++ (b' '
                ∷ (level_to_char level
                    ++ (b' '
                        ∷ (int_text channel
                            ++ (b' '
                                ∷ (place.module_name
                                    ++ (b' '
                                        ∷ (without_path place.source_file
                                            ++ (b':'
                                                ∷ (decimal 10 place.source_line
                                                    ++ (b' '
                                                        ∷ (place.func_name
                                                            ++ (codes "() \n" ++ msg)))))))))))))))

-- tracerMessage(level, channel, moduleName, sourceFile, sourceLine, funcName, msg)
unfoldable pub tracer_message :
    (List ℕ → Bool) → IqrfTracer → List ℕ → ℕ → TrcLevel → ℤ → Place → List ℕ → IqrfTracer
unfolding message_text write
tracer_message opens t time us level channel place msg =
    write opens t (message_text time us level channel place msg)

-- TRC_MSG(level, channel, mname, msg): tracerIsValid(level, channel) looks at the level alone.
unfoldable pub trc_msg :
    (List ℕ → Bool) → IqrfTracer → List ℕ → ℕ → TrcLevel → ℤ → Place → List ℕ → IqrfTracer
unfolding tracer_message is_on
trc_msg opens t time us level channel place msg =
    if is_on t level then tracer_message opens t time us level channel place (msg ++ 10 ∷ []) else t

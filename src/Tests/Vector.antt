-- ===== src/Tests/Vector.antt =====
-- Vector instructions at concrete inputs.
use ppcsimbooke.Base.{◌+◌, ◌^◌, u32}
use ppcsimbooke.Core.Vector.{b_0_31, b_32_63, evaddw}
use ppcsimbooke.Core.Vector.Words.{IsPair, vector_words}
use ppcsimbooke.Core.Accumulator.{Spe, evaddssiaaw}
use ppcsimbooke.Core.Accumulator.Saturate.{biased, IsClamped}
use ppcsimbooke.Core.Accumulator.Words.{IsVector, accumulate}
use ppcsimbooke.Tests.Instr.{start}

abbrev spe_start : Spe
spe_start = record { core = start; acc = 0x7fff_ffff_8000_0001; spefscr = 0 }

vector_words_example :
    IsPair 5
      (u32 (b_0_31 (start.gpr 1) + b_0_31 (start.gpr 2)))
      (u32 (b_32_63 (start.gpr 1) + b_32_63 (start.gpr 2)))
      (evaddw 5 1 2 start)
vector_words_example = (vector_words 5 1 2 3 start).0

accumulate_example :
    IsVector 5 spe_start
      (IsClamped (biased (b_0_31 spe_start.acc) + biased (b_0_31 (start.gpr 1)) + 2 ^ 31))
      (IsClamped (biased (b_32_63 spe_start.acc) + biased (b_32_63 (start.gpr 1)) + 2 ^ 31))
      (evaddssiaaw 5 1 spe_start)
accumulate_example = (accumulate 5 1 spe_start).0

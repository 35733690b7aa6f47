-- ===== src/Tests/Starting.antt =====
-- The start of the user processes and the arithmetic of the device registers, at concrete inputs.
use project.Common.{ℕ, [], ◌∷◌, List}
use project.Actor.{Reply}
use project.Pcb.{zero_state}
use project.Vm.{fresh_vm}
use project.InitProc.{UserImage, Globals}
use project.Tests.Memory.{memory}

abbrev image : UserImage
image = record {
  mutex_proc = 5000;
  sst = 5100;
  tlb_handler = 5200;
  general_exception_handler = 5300;
  stst = record zero_state { reg_sp = 100000 };
  stst_of = λ i. record zero_state { status = i };
}

abbrev globals : Globals
globals = record {
  memory = memory;
  vm = fresh_vm;
  stacks = λ _. 0;
  sst_pcbs = λ _. 0;
  mutex_pcb = 0;
}

abbrev from_ssi : ℕ → Reply
from_ssi n = record { sender = 2; payload = n }

abbrev eight : List Reply
eight =
    from_ssi 1
    ∷ from_ssi 2
    ∷ from_ssi 3
    ∷ from_ssi 4
    ∷ from_ssi 5
    ∷ from_ssi 6
    ∷ from_ssi 7
    ∷ from_ssi 8
    ∷ []

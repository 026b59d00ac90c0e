-- ===== src/Isr80h/Tests.antt =====
-- Runs of the commands at the samples of UserMemory, and the witness.
use maer_os.Common.{none, []}
use maer_os.Process.{binary_data}
use maer_os.UserMemory.Samples.{store}
use maer_os.Isr80h.{Kernel}

abbrev kernel : Kernel
kernel = record {
  store = store;
  process = record {
    id = 0;
    task = 0x90_0000;
    page_directory = 0x1000;
    allocations = [];
    program = binary_data 0x70_0000;
    stack = 0x80_0000;
    size = 6000;
    argc = 0;
    argv = 0;
  };
  esp = 0x50_0000;
  terminal = record { row = 0; col = 0; cell = λ i. 0 };
  keyboard = none;
}

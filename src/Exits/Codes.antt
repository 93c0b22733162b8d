-- ===== src/Exits/Codes.antt =====
-- The exit codes of src/bhyve/api.rs.
pub data VmExitCode : Type 0 where
  inout vmx bogus rdmsr wrmsr hlt mtrap pause paging inst_emul run_state mmio_emul deprecated
        ioapic_eoi suspended mmio task_switch monitor mwait svm deprecated2 debug vminsn bpt ht
        max :
      VmExitCode

-- ===== src/Symbols/Table.antt =====
-- debug_symbols.c: the symbols that `initialize_symbols` adds, in its order, as rows of an offset and a
-- name; and the look-up in the list that it makes.
use Prim.Native.String.{String}
use emuriscv.Base.{ℕ, List, [], ◌∷◌}
use emuriscv.Symbols.{Symbol, add_symbol}

abbrev pub low_symbols : List (ℕ × String)
low_symbols =
    (0x0, "UNKNOWN")
    ∷ (0x80000000, "_ftext")
    ∷ (0x80000004, "trap_vector")
    ∷ (0x8000013c, "restore_mscratch")
    ∷ (0x80000140, "restore_regs")
    ∷ (0x800001e0, "__redirect_trap")
    ∷ (0x800001f8, "__trap_from_machine_mode")
    ∷ (0x80000200, "putstring")
    ∷ (0x80000234, "fatal_error")
    ∷ (0x80000250, "rv32_expected_str")
    ∷ (0x80000288, "rv64_expected_str")
    ∷ (0x800002c0, "rv128_detected_str")
    ∷ (0x80000300, "do_reset")
    ∷ (0x80000394, "misa_ok")
    ∷ (0x800003e0, "boot_other_hart")
    ∷ (0x8000045c, "boot_loader")
    ∷ (0x80000554, "hart_open")
    ∷ (0x80000580, "hart_close")
    ∷ (0x800005b0, "clint_open")
    ∷ (0x800005cc, "plic_open")
    ∷ (0x800005e8, "plic_redact")
    ∷ (0x8000066c, "compat_open")
    ∷ (0x8000067c, "compat_close")
    ∷ (0x800006a8, "chosen_close")
    ∷ (0x800006c8, "hart_filter_open")
    ∷ (0x800006e0, "fdt_print_done")
    ∷ (0x800006e4, "fdt_print_close")
    ∷ (0x800006ec, "clint_done")
    ∷ (0x8000088c, "plic_done")
    ∷ (0x80000b48, "mem_done")
    ∷ (0x80000d44, "mem_prop")
    ∷ (0x80000de8, "chosen_open")
    ∷ (0x80000e2c, "hart_prop")
    ∷ (0x80001098, "hart_filter_prop")
    ∷ (0x800011dc, "fdt_scan_helper")
    ∷ (0x80001530, "mem_open")
    ∷ (0x80001564, "hart_done")
    ∷ (0x8000165c, "hart_filter_done")
    ∷ (0x800017c8, "chosen_prop")
    ∷ (0x80001910, "fdt_scan")
    ∷ (0x800019dc, "fdt_size")
    ∷ (0x80001a84, "fdt_get_address")
    ∷ (0x80001b04, "fdt_get_size")
    ∷ (0x80001b84, "fdt_string_list_index")
    ∷ (0x80001c28, "clint_prop")
    ∷ (0x80001d6c, "plic_prop")
    ∷ (0x80001f04, "compat_prop")
    ∷ (0x80001f64, "query_mem")
    ∷ (0x8000201c, "query_harts")
    ∷ (0x80002130, "query_clint")
    ∷ (0x800021d0, "query_plic")
    ∷ (0x8000223c, "filter_plic")
    ∷ (0x8000228c, "filter_compat")
    ∷ (0x800022e4, "query_chosen")
    ∷ (0x80002350, "filter_harts")
    ∷ (0x800023a8, "fdt_print_printm")
    ∷ (0x80002438, "fdt_print_prop")
    ∷ (0x80002664, "fdt_print_open")
    ∷ (0x80002720, "fdt_print")
    ∷ (0x800027b4, "send_ipi_many")
    ∷ (0x80002934, "mcall_console_putchar")
    ∷ (0x800029c4, "ecall_console_putchar")
    ∷ (0x800029ec, "ecall_console_putstring")
    ∷ (0x80002a14, "ecall_console_putint32")
    ∷ (0x80002a3c, "ecall_console_putint16")
    ∷ (0x80002a64, "putstring")
    ∷ (0x80002a9c, "vprintm")
    ∷ (0x80002ae8, "printm")
    ∷ (0x80002b28, "redirect_trap")
    ∷ (0x80002b70, "pmp_trap")
    ∷ (0x80002b80, "poweroff")
    ∷ (0x80002bcc, "bad_trap")
    ∷ (0x80002c00, "trap_from_machine_mode")
    ∷ (0x80002c6c, "mcall_trap")
    ∷ (0x80002dc4, "mstatus_init")
    ∷ (0x80002e18, "fp_init")
    ∷ (0x80002ec0, "hart_plic_init")
    ∷ (0x80002f54, "hls_init")
    ∷ (0x80002f98, "init_first_hart")
    ∷ (0x80003144, "init_other_hart")
    ∷ (0x80003174, "enter_supervisor_mode")
    ∷ (0x800031dc, "enter_machine_mode")
    ∷ (0x80003238, "htif_done")
    ∷ (0x80003250, "htif_open")
    ∷ (0x80003264, "__check_fromhost")
    ∷ (0x80003334, "htif_prop")
    ∷ (0x80003390, "htif_console_getchar")
    ∷ (0x80003398, "htif_syscall")
    ∷ (0x8000346c, "htif_console_putchar")
    ∷ (0x80003500, "htif_poweroff")
    ∷ (0x80003534, "query_htif")
    ∷ (0x800035b4, "uart_done")
    ∷ (0x800035f8, "uart_open")
    ∷ (0x80003608, "uart_prop")
    ∷ (0x800036c4, "uart_putchar")
    ∷ (0x800036e0, "uart_getchar")
    ∷ (0x80003700, "query_uart")
    ∷ (0x8000374c, "uart16550_done")
    ∷ (0x800037bc, "uart16550_open")
    ∷ []

abbrev pub high_symbols : List (ℕ × String)
high_symbols =
    (0x800037cc, "uart16550_prop")
    ∷ (0x80003888, "uart16550_putchar")
    ∷ (0x800038a8, "uart16550_getchar")
    ∷ (0x800038d4, "query_uart16550")
    ∷ (0x80003920, "finisher_done")
    ∷ (0x80003958, "finisher_open")
    ∷ (0x80003968, "finisher_prop")
    ∷ (0x80003a24, "finisher_exit")
    ∷ (0x80003a60, "query_finisher")
    ∷ (0x80003aac, "truly_illegal_insn.constprop.1")
    ∷ (0x80003ab0, "illegal_insn_trap")
    ∷ (0x80003b24, "truly_illegal_insn")
    ∷ (0x80003b34, "emulate_system_opcode")
    ∷ (0x80004060, "emulate_mul_div")
    ∷ (0x800041dc, "emulate_fp")
    ∷ (0x80004244, "emulate_any_fadd")
    ∷ (0x80004338, "emulate_fadd")
    ∷ (0x80004340, "emulate_fsub")
    ∷ (0x80004348, "emulate_fmul")
    ∷ (0x80004434, "emulate_fdiv")
    ∷ (0x80004520, "emulate_fsqrt")
    ∷ (0x800045f8, "emulate_fsgnj")
    ∷ (0x800046e8, "emulate_fmin")
    ∷ (0x80004898, "emulate_fcvt_ff")
    ∷ (0x80004974, "emulate_fcvt_fi")
    ∷ (0x80004a70, "emulate_fcvt_if")
    ∷ (0x80004c28, "emulate_fcmp")
    ∷ (0x80004d9c, "emulate_fmv_if")
    ∷ (0x80004e80, "emulate_fmv_fi")
    ∷ (0x80004ecc, "emulate_fmadd")
    ∷ (0x80005070, "emulate_float_load")
    ∷ (0x8000512c, "emulate_float_store")
    ∷ (0x800051f0, "misaligned_load_trap")
    ∷ (0x8000538c, "misaligned_store_trap")
    ∷ (0x800054a4, "f32_add")
    ∷ (0x800054c0, "f32_div")
    ∷ (0x800056c8, "f32_eq")
    ∷ (0x80005758, "f32_lt")
    ∷ (0x800057d4, "f32_lt_quiet")
    ∷ (0x80005888, "f32_mul")
    ∷ (0x80005a40, "f32_sqrt")
    ∷ (0x80005b90, "f32_to_f64")
    ∷ (0x80005c5c, "f32_classify")
    ∷ (0x80005d50, "f64_add")
    ∷ (0x80005d70, "f64_div")
    ∷ (0x800060c0, "f64_eq")
    ∷ (0x80006190, "f64_lt")
    ∷ (0x8000625c, "f64_lt_quiet")
    ∷ (0x80006370, "f64_mul")
    ∷ (0x80006564, "f64_sqrt")
    ∷ (0x800067a4, "f64_to_f32")
    ∷ (0x8000685c, "f64_to_ui64")
    ∷ (0x80006998, "f64_classify")
    ∷ (0x80006ab0, "softfloat_addMagsF32")
    ∷ (0x80006c50, "softfloat_addMagsF64")
    ∷ (0x80006e5c, "softfloat_approxRecip32_1")
    ∷ (0x80006f48, "softfloat_approxRecipSqrt32_1")
    ∷ (0x80007074, "softfloat_mul64To128M")
    ∷ (0x800071a0, "softfloat_mulAddF32")
    ∷ (0x8000753c, "softfloat_mulAddF64")
    ∷ (0x80007bd8, "softfloat_negXM")
    ∷ (0x80007c18, "softfloat_normSubnormalF32Sig")
    ∷ (0x80007c4c, "softfloat_normSubnormalF64Sig")
    ∷ (0x80007cf8, "softfloat_roundMToUI64")
    ∷ (0x80007dc0, "softfloat_roundPackToF32")
    ∷ (0x80007f10, "softfloat_roundPackToF64")
    ∷ (0x800080e8, "softfloat_shiftLeftM")
    ∷ (0x800081a0, "softfloat_shiftRightJam32")
    ∷ (0x800081c8, "softfloat_shiftRightJam64")
    ∷ (0x80008268, "softfloat_shiftRightJamM")
    ∷ (0x80008360, "softfloat_shortShiftLeftM")
    ∷ (0x800083bc, "softfloat_shortShiftRightM")
    ∷ (0x80008414, "softfloat_shortShiftRightJam64")
    ∷ (0x800084b4, "softfloat_shortShiftRightJamM")
    ∷ (0x80008518, "softfloat_subM")
    ∷ (0x80008588, "softfloat_subMagsF32")
    ∷ (0x8000878c, "softfloat_subMagsF64")
    ∷ (0x80008a20, "ui64_to_f64")
    ∷ (0x80008a78, "softfloat_propagateNaNF32UI")
    ∷ (0x80008ac4, "softfloat_propagateNaNF64UI")
    ∷ (0x80008b2c, "softfloat_addM")
    ∷ (0x80008b8c, "softfloat_countLeadingZeros32")
    ∷ (0x80008bcc, "softfloat_countLeadingZeros64")
    ∷ (0x80008c18, "softfloat_normRoundPackToF32")
    ∷ (0x80008cb0, "softfloat_normRoundPackToF64")
    ∷ (0x80008dd8, "vsnprintf")
    ∷ (0x80009110, "snprintf")
    ∷ (0x80009148, "memcpy")
    ∷ (0x800091b8, "memset")
    ∷ (0x80009214, "strlen")
    ∷ (0x8000923c, "strcmp")
    ∷ (0x80009264, "strcpy")
    ∷ (0x80009280, "atol")
    ∷ (0x80009308, "__mulsi3")
    ∷ (0x8000932c, "__muldi3")
    ∷ (0x800093bc, "__divsi3")
    ∷ (0x800093c4, "__udivsi3")
    ∷ (0x8000940c, "__umodsi3")
    ∷ (0x80009440, "__modsi3")
    ∷ []

-- The statements of `initialize_symbols`, each of which adds behind the symbol that the last one added.
unfoldable pub add_symbols : List Symbol → List (ℕ × String) → List Symbol
unfolding add_symbol
add_symbols symbols [] = symbols
add_symbols symbols ((offset, name) ∷ rows) = add_symbols (add_symbol symbols offset name) rows

unfoldable pub initialize_symbols : List Symbol
unfolding add_symbols
initialize_symbols = add_symbols (add_symbols [] low_symbols) high_symbols

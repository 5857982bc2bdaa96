-- ===== src/Printf.antt =====
-- lib/stdio.c, from `print_string` to `snprintf`: formatted output.
-- The characters that a function sends to `putchar` are a list, in the order of the calls; the
-- result of `putchar_func` is never read, so its calls come after one another over that list. The
-- format and the strings stand in a memory of bytes. The arguments are a list of 64-bit words, of
-- which `va_arg` takes the next. `none` means that the fuel ran out or an argument was missing.
pub mod Number
pub mod Spec
pub mod Convert
pub mod Buffer
mod Tests

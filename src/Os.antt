-- ===== src/Os.antt =====
-- What every component takes from the operating system's headers: pointers and handles as numbers,
-- the constants that the code names, and `std::error_code`.
use win_io.Base.{ℕ, ◌-◌, ◌%◌, ◌^◌, Bool, not, ◌==◌}

-- A pointer or handle; `null` is nullptr.
abbrev pub Ptr : Type 0
Ptr = ℕ

abbrev pub null : Ptr
null = 0

-- INVALID_HANDLE_VALUE and INVALID_SOCKET are (void*)-1 and ~0.
abbrev pub invalid_handle : Ptr
invalid_handle = 2 ^ 64 - 1

abbrev pub is_null : Ptr → Bool
is_null p = p == null

-- An error code of `std::system_category()` is the bit pattern of its `int` value; 0 is no error.
abbrev pub ErrorCode : Type 0
ErrorCode = ℕ

abbrev pub no_error : ErrorCode
no_error = 0

-- `if (ec)`
abbrev pub is_error : ErrorCode → Bool
is_error ec = not (ec == 0)

abbrev pub dword : ℕ → ℕ
dword n = n % 2 ^ 32

-- `std::error_code(-1, std::system_category())`
abbrev pub minus_one : ErrorCode
minus_one = 2 ^ 32 - 1

-- INFINITE
abbrev pub infinite : ℕ
infinite = 2 ^ 32 - 1

abbrev pub error_invalid_data : ErrorCode
error_invalid_data = 13

abbrev pub error_bad_length : ErrorCode
error_bad_length = 24

-- ERROR_IO_PENDING and WSA_IO_PENDING
abbrev pub error_io_pending : ErrorCode
error_io_pending = 997

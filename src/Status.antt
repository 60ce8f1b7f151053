-- ===== src/Status.antt =====
-- The status codes of src/status.h, as the functions return them: negated.
use white_os.Base.Int.{ℤ, pos, negsuc}

-- WHITEOS_ALL_OK
abbrev pub all_ok : ℤ
all_ok = pos 0

-- -EIO
abbrev pub eio : ℤ
eio = negsuc 0

-- -EINVARG
abbrev pub einvarg : ℤ
einvarg = negsuc 1

-- -ENOMEM
abbrev pub enomem : ℤ
enomem = negsuc 2

-- -EBADPATH
abbrev pub ebadpath : ℤ
ebadpath = negsuc 3

-- -EFSNOTUS
abbrev pub efsnotus : ℤ
efsnotus = negsuc 4

-- -ERDONLY
abbrev pub erdonly : ℤ
erdonly = negsuc 5

-- -EUNIMP
abbrev pub eunimp : ℤ
eunimp = negsuc 6

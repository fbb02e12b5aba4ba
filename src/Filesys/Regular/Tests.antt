-- ===== src/Filesys/Regular/Tests.antt =====
-- Files of src/filesys/fs_ifreg.c in sectors of four bytes.
use tinker.Base.{ℕ, ◌+◌, ◌<◌, ◌≤◌, ◌≡◌, refl, true, false, some, none, arith}
use tinker.Kernel.State.{done}
use tinker.Filesys.Regular.{
  FileFlags, RegFile, RegHandle, moved, blank_file, fresh_handle, open_regular, read_regular,
  write_regular,
}
use tinker.Filesys.Regular.Trip.{write_read}
use tinker.Filesys.Regular.Append.{AtEnd, open_regular-AtEnd, write_regular-AtEnd}
use tinker.Filesys.Regular.Overwrite.{second_write_overwrites}

abbrev writer : FileFlags
writer = record { wronly = false; rdwr = true; append = true; creat = true; excl = false }

abbrev reader : FileFlags
reader = record { wronly = false; rdwr = false; append = false; creat = false; excl = false }

abbrev digits : ℕ → ℕ
digits j = j + 48

abbrev letters : ℕ → ℕ
letters j = j + 97

abbrev zeros : ℕ → ℕ
zeros j = 0

opened : open_regular 4 writer true none ≡ done (some (fresh_handle 4), some (blank_file 4))
unfolding open_regular
opened = refl

write_read_example :
    (h' : RegHandle) × (f' : RegFile) × (write_regular 4 writer 10 10 digits
        (fresh_handle 4)
        (blank_file 4)
      ≡ done (moved 10, h', f'))
    × (g : RegHandle) × (open_regular 4 reader true (some f') ≡ done (some g, some f'))
    × (g' : RegHandle) × (out' : ℕ → ℕ) × (read_regular 4 reader 10 g f' zeros
        ≡ done (moved 10, g', out'))
    × ((j : ℕ) → j < 10 → out' j ≡ digits j)
    × ((j : ℕ) → 10 ≤ j → out' j ≡ 0)
write_read_example =
    write_read 4 writer reader 10 10 digits zeros (omega arith) opened (refl, refl, refl)
      (refl, refl, refl) (omega arith) (omega arith)

second_write_overwrites_example :
    (h1 : RegHandle) × (f1 : RegFile) × (write_regular 4 writer 10 10 digits
        (fresh_handle 4)
        (blank_file 4)
      ≡ done (moved 10, h1, f1))
    × (f1.dsize < 10)
    × (h2 : RegHandle) × (f2 : RegFile) × (write_regular 4 writer 3 3 letters h1 f1
        ≡ done (moved 3, h2, f2))
    × (g : RegHandle) × (open_regular 4 reader true (some f2) ≡ done (some g, some f2))
    × (g' : RegHandle) × (out' : ℕ → ℕ) × (read_regular 4 reader 3 g f2 zeros
        ≡ done (moved 3, g', out'))
    × ((j : ℕ) → j < 3 → out' j ≡ letters j)
second_write_overwrites_example =
    second_write_overwrites 4 writer reader 10 10 3 3 digits letters zeros (omega arith) opened
      (refl, refl, refl) (refl, refl, refl) (omega arith) (omega arith) (omega arith) (omega arith)
      (omega arith)

empty-AtEnd : AtEnd 4 (fresh_handle 4) (blank_file 4) × ((blank_file 4).dsize ≡ 0)
empty-AtEnd = open_regular-AtEnd 4 writer opened

write_regular-AtEnd_example :
    (h' : RegHandle) × (f' : RegFile) × (write_regular 4 writer 0 3 digits
        (fresh_handle 4)
        (blank_file 4)
      ≡ done (moved 3, h', f'))
    × AtEnd 4 h' f'
    × (f'.dsize ≡ (blank_file 4).dsize + 3)
    × ((j : ℕ) → j < (blank_file 4).dsize → f'.sectors 0 j ≡ (blank_file 4).sectors 0 j)
    × ((j : ℕ) → j < 3 → f'.sectors 0 ((blank_file 4).dsize + j) ≡ digits j)
write_regular-AtEnd_example =
    write_regular-AtEnd 4 writer 0 3 digits (fresh_handle 4) (blank_file 4) (refl, refl, refl)
      empty-AtEnd.0 (omega arith) room
  where
    room : (blank_file 4).dsize + 3 ≤ 4
    room = unfold blank_file in omega arith

-- ===== src/FileSystem/Tests.antt =====
-- The file system on the sample image
use unix_operation_system.Prelude.{◌+◌, ◌≡◌, refl, arith, inr, some}
use unix_operation_system.Prelude.Int.{pos, fail}
use unix_operation_system.Memory.{Memory}
use unix_operation_system.Strings.Copy.{pad_loop_lem}
use unix_operation_system.Sample.{image, boot, buffer, dentry, fname, missing}
use unix_operation_system.FileSystem.Layout.{dir_entry, filename_len}
use unix_operation_system.FileSystem.{read_data, read_dentry_by_name}
use unix_operation_system.FileSystem.Dentry.{
  FirstMatch, IsEntry, Loaded, read_dentry_by_name-first, read_dentry_by_name-none,
}
use unix_operation_system.FileSystem.ByIndex.{with_nulls}
use unix_operation_system.FileSystem.Copying.{Stored, file_byte}
use unix_operation_system.FileSystem.Rounds.{IsReadable}
use unix_operation_system.FileSystem.Data.{read_data-Stored}

image-IsReadable : IsReadable image boot 0 1 buffer 2
image-IsReadable = record {
  ordered = omega arith;
  apart = omega arith;
  valid = λ idx h. ground (arith, h);
}

read_data-Stored_example :
    let (count, m') = read_data image boot 0 1 buffer 8 in
    (count ≡ pos 1) × Stored (λ t. file_byte image boot 0 image (1 + t)) buffer 0 1 image m'
read_data-Stored_example =
    read_data-Stored image boot 0 1 buffer 8 (omega arith) (omega arith) (omega arith) (omega arith)
      image-IsReadable

image-FirstMatch : FirstMatch image boot fname 0
image-FirstMatch = record {
  within = omega arith;
  matches = λ i h q. ground (arith, h);
  earlier = λ j h. absurd (omega (arith, h));
}

first-IsEntry : IsEntry image dentry (dir_entry boot 0) 1
first-IsEntry = record {
  str = record { ends = refl; goes_on = λ i h. ground (arith, h) };
  short = omega arith;
  apart = omega arith;
}

with_nulls-IsEntry : IsEntry (with_nulls image buffer) dentry (dir_entry boot 0) 1
with_nulls-IsEntry = record {
  str = record {
    ends = ground (arith, pad_loop_lem filename_len 0 image buffer (dir_entry boot 0 + 1));
    goes_on =
        λ i h. ground (arith, h, pad_loop_lem filename_len 0 image buffer (dir_entry boot 0 + i));
  };
  short = omega arith;
  apart = omega arith;
}

read_dentry_by_name-first_example :
    (m' : Memory) × (read_dentry_by_name image boot fname dentry ≡ some (pos 0, m'))
    × Loaded image dentry (dir_entry boot 0) 1 m'
read_dentry_by_name-first_example =
    read_dentry_by_name-first image boot fname dentry 0 1 (omega arith) (omega arith)
      image-FirstMatch first-IsEntry

read_dentry_by_name-none_example :
    read_dentry_by_name image boot missing dentry ≡ some (fail, image)
read_dentry_by_name-none_example =
    read_dentry_by_name-none image boot missing dentry
      (inr (λ i h same. ground (arith, h, same 0 (omega arith) (λ j l. absurd (omega (arith, l))))))

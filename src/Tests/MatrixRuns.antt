-- ===== src/Tests/MatrixRuns.antt =====
-- Matrices of two rows.
use bsfs.Base.{refl, arith, Bytes}
use bsfs.Matrix.{matrix_get, matrix_multiply, matrix_invert}
use bsfs.Matrix.Kernel.{InvertResult, matrix_invert-InvertResult}
use bsfs.Matrix.Multiply.{product_of, matrix_multiply-IsView}
use bsfs.Matrix.View.{Entries, IsView}
use bsfs.Tests.Setting.{roomy_host}

abbrev zeros : Bytes
zeros a = 0

-- The rows 11 and 01.
abbrev sheared : Bytes
sheared a = 0xd0

abbrev entries : Entries
entries r c = matrix_get sheared r c 2

sheared-IsView : IsView 2 sheared entries
sheared-IsView = record { bytes = λ a. omega arith; reads = λ r c _ _. refl }

zeros-IsView : IsView 2 zeros (λ r c. matrix_get zeros r c 2)
zeros-IsView = record { bytes = λ a. omega arith; reads = λ r c _ _. refl }

matrix_multiply-IsView_example :
    IsView 2 (matrix_multiply 2 zeros sheared sheared) (product_of 2 entries entries)
matrix_multiply-IsView_example =
    matrix_multiply-IsView 2 sheared sheared entries entries sheared-IsView sheared-IsView zeros _
      zeros-IsView

matrix_invert-InvertResult_example :
    InvertResult 2 entries (matrix_invert 2 roomy_host zeros zeros sheared)
matrix_invert-InvertResult_example =
    matrix_invert-InvertResult 2 roomy_host zeros zeros sheared entries (λ a. omega arith)
      (λ a. omega arith) (omega arith) refl sheared-IsView
